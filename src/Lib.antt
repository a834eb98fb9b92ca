-- ===== src/Lib.antt =====
-- Barbican keeps secrets, makes keys and certificates to order and limits what a project may hold.
-- This library models the parts of its Python code that carry that logic, and proves what they
-- guarantee. Paths are from the repository's root.
--
-- The parts and how they interact. A client's request reaches a controller, which asks the quota
-- enforcer, writes an order and casts a call to the worker queue. A worker serves the call in a
-- transaction of its own: an order task has a plugin or a certificate authority do the work, and
-- puts the outcome on the order. An order that must wait for its authority leaves a row in the
-- retry table, and the retry scheduler puts the row's call back on the queue when it is due. List
-- requests are cut into pages. Which plugin keeps a secret is decided by the project's store. A
-- payload is brought to base64, handed to that plugin, and brought back to its media type when it
-- is read; where the plugin is the crypto adapter, a crypto plugin encrypts it under the project's
-- key, and Barbican's own tables hold the result.
--
-- Which file models what:
--   Shared.antt and Shared/       numbers, lists, results and the state-passing notation `Exec`
--   Session.antt                  the database session: start, commit, rollback and clear of
--                                 barbican/model/repositories.py
--   Quota.antt                    QuotaDriver of barbican/common/quota.py with the rows that it
--                                 reads; Quota/Enforce is QuotaEnforcer; Quota/Admin is the writing
--                                 side, with get_or_create_project of barbican/common/resources.py
--                                 and ProjectRepo and ProjectQuotasRepo of
--                                 barbican/model/repositories.py; Quota/Rows, Quota/Valid,
--                                 Quota/RoundTrip and Quota/SetDelete hold the invariant and proofs
--   Paging.antt                   clean_paging_values of barbican/model/repositories.py and the
--                                 navigation links of barbican/common/hrefs.py
--   Tasks/Orders.antt             Order and OrderRetryTask of barbican/model/models.py, OrderRepo
--   Tasks/FollowOn.antt           barbican/tasks/common.py
--   Tasks/BaseTask.antt           BaseTask of barbican/tasks/resources.py, as a record of hooks and
--                                 the template method over them
--   Tasks/Certificates.antt       barbican/tasks/certificate_resources.py, the request side
--   Tasks/OrderTasks.antt         the three order tasks of barbican/tasks/resources.py, and
--                                 generate_safe_exception_message of barbican/api/__init__.py
--   Tasks/Server.antt             barbican/queue/server.py, and the methods of
--                                 barbican/queue/client.py
--   Tasks/Scheduler.antt          barbican/queue/retry_scheduler.py
--   Tasks/OrderUpdate.antt        PUT on an order, barbican/api/controllers/orders.py
--   Tasks/Lifecycle.antt          POST of an order there, and all processes as a step relation; the
--                                 files below it hold the invariant and its proof
--   Plugins.antt                  barbican/plugin/util/multiple_backends.py and utils.py, with the
--                                 secret store rows of barbican/model; Plugins/Config reads the
--                                 configuration; Plugins/Managers is the plugin managers of
--                                 barbican/plugin/interface/secret_store.py and
--                                 barbican/plugin/crypto/manager.py; Plugins/Sync is
--                                 sync_secret_stores and the preferences of the projects, with a
--                                 rollback where a row is refused; Plugins/Routing, RoundTrip,
--                                 Kept, Distinct, Splits, Synced, Preferred and Preference hold
--                                 proofs
--   Secrets/MimeTypes.antt        barbican/plugin/util/mime_types.py; Secrets/Normal has its proofs
--   Secrets/Data.antt             the data transfer objects of
--                                 barbican/plugin/interface/secret_store.py and
--                                 barbican/plugin/crypto/base.py, and the exceptions
--   Secrets/Translations.antt     barbican/plugin/util/translations.py; Secrets/Forms has its proofs
--   Secrets/World.antt            the tables of secrets: rows of barbican/model/models.py, queries
--                                 of barbican/model/repositories.py
--   Secrets/Crypto.antt           barbican/plugin/store_crypto.py
--   Secrets/Resources.antt        barbican/plugin/resources.py: transport keys, the kinds of store
--                                 plugin; Secrets/Requests has store, get and delete, and
--                                 Secrets/Generate the generation of keys
--   Secrets/Keks, Binding         the key of a project: found, made and bound
--   Secrets/Steps, Encrypted, Rows, Kept, RoundTrip, Guards, Removal
--                                 what a request did to the tables, and the proofs about it
--
-- How state is modelled. A table is a list of records in the order of creation; a session is the
-- committed database and the view of it that the thread works on. A write to an attribute of an
-- entity is a write to its row in the view. Code that may raise returns `Result`, and code that
-- also changes state is an `Exec`, whose state survives an exception as Python's objects do. Log
-- lines, time stamps other than a retry's time, and the decorators for monitoring are left out.
--
-- Parameters. The plugins, the certificate authorities and the code that stores what they return
-- are the operations of the record `Backend` (Tasks/Certificates.antt): any functions on a state of
-- their own, which may fail, and which do not write the orders and the retries; its `rolled_back`
-- says what of that state a rollback leaves, which takes back rows and not what an authority keeps.
-- The commit of its own that refresh_ca_table may make comes before the task writes anything, and is
-- left out.
-- Base64 with UTF-8 is the record `Codec`, whose laws are `IsBase64` (Secrets/Data.antt); the store
-- plugins other than the adapter are `VendorOps`, the crypto plugins `CryptoOps`, functions on the
-- state of their devices, and a theorem that needs it assumes `IsCrypto`: labels are kept, and what
-- was just encrypted is decrypted. Loading and writing keys is `Serialization`.
-- `kind_of` says how the API tells exceptions apart. `PluginOps` (Plugins.antt) is what the
-- managers ask of a plugin. `Fault` (Tasks/Scheduler.antt) and the `fault` of a call
-- (Tasks/Server.antt) say which cast, commit or insertion fails.
--
-- Bounds and fuel. Python's integers are unbounded and so are these; sys.maxsize is 2 ^ 63 - 1.
-- `walk` (Paging/Walk.antt), the client that follows the links of a list, has fuel, and one more
-- than the number of rows is enough, since each link moves at least one row on.
--
-- Not modelled: the WSGI and Pecan layer, the schemas of requests, the policies, the text of hrefs,
-- the SQL of migrations and of the clean-up command, the drivers of external services and of
-- hardware modules, and message transport. Their code is a wrapper around libraries or needs them.
pub mod Shared
pub mod Session
pub mod Quota
pub mod Paging
pub mod Tasks
pub mod Plugins
pub mod Secrets
