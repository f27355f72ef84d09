-- ===== src/Lib.antt =====
-- indy-node keeps a distributed ledger of identities. A node validates each write request against
-- authorisation rules, applies it to a state and to caches, and follows the transactions of its
-- config ledger, upgrades of itself among them. This library models parts of that code.
--
-- The parts, and how they meet:
--
--   Auth        who may do what: indy_common/authorize. A handler builds an action, the request
--               validator finds its rule by the strategy of the config, and the authorizers judge
--               the request by the rule.
--   Identity    nyms: the handlers of NYM transactions validate over the cache of identities and
--               the request validator, then write to the state and to the cache.
--   Domain      attributes, schemas, claim definitions, revocation definitions and objects of rich
--               schemas: their keys in the domain state, and the handlers that write them.
--   Revocation  credential revocation: the two strategies check a registry entry against the last
--               one, and write what the registry holds from then on; the handler of entries asks the
--               request validator and chooses the strategy.
--   CompatSet   the sets of an older Python, whose order of iteration the registries keep.
--   Upgrade     the upgrader follows the POOL_UPGRADE transactions of the config ledger, schedules
--               one upgrade of the node and asks the control tool for it.
--   Reads       reads of a state at a time or at a transaction: nyms, attributes and flags. The handler
--               of revocation entries asks for the flag that selects its order.
--   Base        names of the libraries, tests, lists, texts, decimal numbers and JSON values.
--
-- Which file models which code:
--
--   Auth/Role, Auth/Txn              indy_common/roles.py, authorize/helper.py, transactions.py
--   Auth/Action                      authorize/auth_actions.py: AuthActionAdd, AuthActionEdit,
--                                    compile_action_id, split_action_id
--   Auth/Constraint                  authorize/auth_constraints.py: the classes of constraints
--   Auth/Constraint/Dict             authorize/auth_constraints.py: as_dict, from_dict and
--                                    ConstraintCreator
--   Auth/Request, Auth/Verdict       the fields of a request, and the results of authorizers
--   Auth/Authorizer                  authorize/authorizer.py: RolesAuthorizer, EndorserAuthorizer,
--                                    AndAuthorizer, OrAuthorizer, CompositeAuthorizer
--   Auth/Strategy                    authorize/auth_cons_strategies.py: both strategies
--   Auth/Validator                   authorize/auth_request_validator.py: validate
--   Auth/Changes                     the handlers of AUTH_RULE and AUTH_RULES under
--                                    indy_node/server/request_handlers/config_req_handlers/auth_rule
--   Auth/Rules                       authorize/auth_map.py: every action, constraint and rule
--   Revocation/Sets                  the sets of Python that the strategies use
--   Revocation/Strategy              indy_node/server/revocation_strategy.py: validate,
--                                    specific_validation, write, set_to_state, get_delta
--   Revocation/Strategy/Compat       revocation_strategy.py: the legacy order, by CompatSet
--   CompatSet                        indy_common/compat_set.py: the table and the loops that look for
--                                    a slot
--   CompatSet/Table                  compat_set.py: _CompatSetInner, one element at a time; resize,
--                                    next, pop
--   CompatSet/Algebra                compat_set.py: _CompatSetInner, with another collection
--   CompatSet/Wrapper                compat_set.py: CompatSet
--   CompatSet/Ints                   the hash and the equality of integers
--   Revocation/Handler               revoc_reg_entry_handler.py under
--                                    indy_node/server/request_handlers/domain_req_handlers
--   Revocation/Reads                 get_revoc_reg_delta_handler.py and get_revoc_reg_handler.py under
--                                    indy_node/server/request_handlers/read_req_handlers
--   Domain/Paths                     indy_common/state/domain.py: the paths
--   Domain/Definitions               schema_handler.py, claim_def_handler.py and
--                                    revoc_reg_def_handler.py under domain_req_handlers
--   Domain/Attribute                 attribute_handler.py under domain_req_handlers
--   Domain/RichSchema                abstract_rich_schema_object_handler.py and the handlers of rich
--                                    schemas, encodings, credential definitions and presentation
--                                    definitions, under domain_req_handlers/rich_schema
--   Domain/RichSchema/Mapping        rich_schema_mapping_handler.py, in the same place
--   Reads                            version_read_request_handler.py and get_nym_handler.py under
--                                    read_req_handlers
--   Reads/Attribute                  get_attribute_handler.py under read_req_handlers
--   Reads/Flags                      get_flag_handler.py under read_req_handlers, and flag_handler.py
--                                    under config_req_handlers
--   Upgrade/Log                      indy_node/server/action_log.py and upgrade_log.py
--   Upgrade/Ledger                   indy_node/server/upgrader.py: get_action_id, get_upgrade_txn
--   Upgrade/Schedule                 upgrader.py: isScheduleValid
--   Upgrade/State                    upgrader.py and node_maintainer.py: _scheduleUpgrade,
--                                    _cancelScheduledUpgrade, _callUpgradeAgent, _unscheduleAction,
--                                    _declareTimeoutExceeded
--   Upgrade/Upgrader                 upgrader.py: handleUpgradeTxn, _sendUpgradeRequest, the start
--   Upgrade/Handler                  pool_upgrade_handler.py under
--                                    indy_node/server/request_handlers/config_req_handlers, and
--                                    upgrader.py: check_upgrade_possible
--   Upgrade/Upgrader/Process         upgrader.py: processLedger
--   Identity/Cache                   indy_node/persistence/idr_cache.py
--   Identity/Diddoc, Identity/Nym    nym_handler.py under
--                                    indy_node/server/request_handlers/domain_req_handlers
--   Identity/Writes                  nym_handler.py and idr_cache_nym_handler.py: update_state
--
-- The other files hold proofs. Each is named for what it proves; the files named Tests hold runs on
-- small inputs and instances of the theorems.
--
-- State and errors. A method that changes its object is a function from the old state to the new
-- one; the upgrader also records its calls of the notifier, the action queue and the control tool.
-- An exception is a value: a constructor of a result type with what the message shows, or `none`
-- where there is one exception only.
--
-- Bounds and fuel. Loops over lists are structural. `get_upgrade_txn` counts the numbers that are
-- left, `_sendUpgradeRequest` the attempts, and `str` of a number has the number as its fuel, which is more
-- than its digits. The loops over the slots of a hash table have as many turns as its size and the hash
-- together, and three more: the perturbation is used up within the hash, and the walk that is left
-- visits every slot.
--
-- Parameters, for code that is not in the repository: the state tries and their serializers, the
-- key value store and rlp (`Backend`, with the laws of `BackendLaws`), base58 and sha256 (`Codec`),
-- the parser of JSON, dates, versions and installed packages (`Platform`), the config ledger by its
-- size and `getBySeqNo`, the issuance type of a stored definition, the root of the state at a time
-- with what it holds and its proofs (`Ledger`, with the law of `Keeps`), and the parser, the
-- printer and the digest of attributes. The elements of a `CompatSet` come with an equality and a
-- hash (`Key`); equal elements are the same value. The legacy order of the revocation strategies is
-- a parameter of which the theorems use that it lists the members of the set;
-- Revocation/Strategy/Compat fills it.
--
-- Not modelled: message texts, logging and metrics; the schemas of messages; the wiring of the
-- node; the file behind the log of upgrades; the reads of schemas, definitions, rich schemas and
-- rules; the contexts of rich schemas; the restarter; the legacy map of authorisations, which no
-- handler asks; the tools and scripts. Indices of revocation registries are natural numbers, where
-- the code also admits negative ones.
pub mod Base
pub mod CompatSet
pub mod Auth
pub mod Revocation
pub mod Upgrade
pub mod Identity
pub mod Domain
pub mod Reads
