-- ===== src/Auth/Txn.antt =====
-- Transaction types: indy_common/transactions.py. NODE, NYM and the types of the author agreement
-- and of frozen ledgers are the plenum library's, with the codes that docs/source/requests.md
-- lists.
use indy_node.Base.{String}

abbrev pub attrib : String
attrib = "100"

abbrev pub schema : String
schema = "101"

abbrev pub claim_def : String
claim_def = "102"

abbrev pub pool_upgrade : String
pool_upgrade = "109"

abbrev pub pool_config : String
pool_config = "111"

abbrev pub revoc_reg_def : String
revoc_reg_def = "113"

abbrev pub revoc_reg_entry : String
revoc_reg_entry = "114"

abbrev pub pool_restart : String
pool_restart = "118"

abbrev pub validator_info : String
validator_info = "119"

abbrev pub auth_rule : String
auth_rule = "120"

abbrev pub auth_rules : String
auth_rules = "122"

abbrev pub flag : String
flag = "130"

abbrev pub json_ld_context : String
json_ld_context = "200"

abbrev pub rich_schema : String
rich_schema = "201"

abbrev pub rich_schema_encoding : String
rich_schema_encoding = "202"

abbrev pub rich_schema_mapping : String
rich_schema_mapping = "203"

abbrev pub rich_schema_cred_def : String
rich_schema_cred_def = "204"

abbrev pub rich_schema_pres_def : String
rich_schema_pres_def = "205"

abbrev pub node : String
node = "0"

abbrev pub nym : String
nym = "1"

abbrev pub txn_author_agreement : String
txn_author_agreement = "4"

abbrev pub txn_author_agreement_aml : String
txn_author_agreement_aml = "5"

abbrev pub txn_author_agreement_disable : String
txn_author_agreement_disable = "8"

abbrev pub ledgers_freeze : String
ledgers_freeze = "9"
