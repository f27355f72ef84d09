-- ===== src/Base/Chars.antt =====
-- The characters that `str.strip` takes off and that `\s` of a pattern matches.
use Prim.Native.Char.{Char, code}
use mathlib.Core.Bool.{Bool, ◌&&◌, ◌||◌}
use indy_node.Base.Tests.{num_eq, leb}

abbrev pub is_space : Char → Bool
is_space c =
    let n = code c in
    (leb 9 n && leb n 13)
    || ((leb 28 n && leb n 32)
        || (num_eq n 133
            || (num_eq n 160
                || (num_eq n 5760
                    || ((leb 8192 n && leb n 8202)
                        || (num_eq n 8232
                            || (num_eq n 8233
                                || (num_eq n 8239 || (num_eq n 8287 || num_eq n 12288)))))))))
