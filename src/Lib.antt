-- ===== src/Lib.antt =====
-- The zabbig client: a program that a timer starts again and again. It reads its configuration, asks
-- collectors for the values of metrics, and sends the values to Zabbix servers. This library models
-- the client's core, zabbig_client/src/zabbig_client/, and proves what its parts promise.
--
-- One invocation, `run` of main.py, goes through these parts:
--   Main          main.py: Main.antt has `run_async` (one cycle: collect, count, route, send, report) and
--                 the selection of metrics; Main/Run.antt has `run` with its early returns, the lock
--                 and the state files. `under_lock` is the block under `with RunLock(...)`.
--                 Main/Ledger.antt is the abstract view of the schedule of a day; Main/Output.antt has
--                 the report file, Main/Connections.antt the closing of cached connections, and
--                 Main/Validate.antt `validate`.
--   Locking       locking.py: `acquire` and `release` of a process that is alone, and in Locking/Race.antt
--                 the system calls of many processes as a step relation.
--   Scheduler     scheduler.py: `should_execute`, the time window, the daily quota and the frequency.
--   Config        config_loader.py: `_parse_metric` (Config/Metric.antt, the checks of the parameters in
--                 Config/Params.antt), `load_metrics_config` with included files (Config/Load.antt), the
--                 schedule fields and `_validate_client_config` (Config.antt), and `load_client_config`
--                 (Config/Client.antt).
--   Crypto        _dbcrypto.py: padding, tokens, the key with its file (Crypto/Keys.antt), and
--                 scripts/encrypt_password.py (Crypto/Script.antt).
--   DbLoader      db_loader.py: databases.yaml, its passwords, and the connection by type.
--   Registry      collector_registry.py: the classes that are registered, and their lazy import.
--   Runner        runner.py: `run_all_collectors`, where a failed collector becomes a result under its
--                 metric's error policy, the batch window, and `update_summary`.
--   Log           collectors/log.py: the conditions on a line and the strategies that reduce many
--                 lines to one value (Log.antt), the incremental scan (Log/Scan.antt), the path and the parameters
--                 (Log/Source.antt), the strategies without hosts (Log/Plain.antt), and `collect`
--                 with the saved offset (Log/Collect.antt).
--   Database      collectors/database.py: the query on a cached connection, whose cache Database/Reuse.antt is
--                 about, and the rows that become a result (Database/Rows.antt).
--   Probe         collectors/probe.py: TCP and HTTP probes; Probe/Mirror.antt compares a body with a log file.
--   Network       collectors/network.py: the counters of /proc/net/dev and /proc/net/sockstat.
--   Host          collectors/cpu.py, memory.py, disk.py (Host/Volume.antt) and service.py.
--   Router        result_router.py: `route` splits the results into two queues.
--   Sender        sender_manager.py: chunks, `do_send` over the servers, and the self-monitoring items.
--   StateManager  state_manager.py: last_run.json and schedule.json.
--   Models        models.py: the configuration, a metric, a result, the summary; Models/Dynamic.antt has the
--                 Python values of YAML and JSON.
--   Prelude       Booleans, lists, dicts, texts, exceptions as values, floats by their order, state actions.
--   Tests         runs on concrete inputs.
--
-- A function keeps its Python name. A method is a function of the configuration and of what it
-- changes; a mutated summary is returned. An exception is `err` of Prelude/Exceptions.antt. The loader
-- returns metrics whose id and key are the values of YAML (`MetricDefOf Value` of Models.antt), and
-- the rest of the program is modelled for metrics whose id and key are texts. Python's
-- `int` is the signed integer of Prelude/Float.antt where a negative value can occur, and a native
-- number where the source cannot make it negative.
--
-- What is not under zabbig_client/src/zabbig_client/ is a parameter: zabbix_utils is `Network` of
-- Sender.antt, asyncio and the collectors are `World` of Runner.antt, the operating system is
-- `System` of Locking.antt and `Disk` of StateManager.antt, the loaders and the clock are `Inputs`
-- of Main/Run.antt, the `re` module is `Builtins` of Models/Dynamic.antt, Python's conversions are
-- `Casts` there, YAML and the files are `ConfigFiles` of Config/Yaml.antt, and AES, HMAC, base64 and
-- UTF-8 are `Primitives` of Crypto.antt, with what is documented of them in Crypto/Contract.antt,
-- sockets and HTTP are `Reach` of Probe.antt, the files of /proc are `Proc` of Network.antt, and
-- pg8000 is `Driver` of Database.antt and an argument of `get_connection`. Each collector of Host has
-- a record of what it reads. Sends that the source
-- makes in parallel happen one after the other, and so do the queries in Database/Reuse.antt, which the source
-- can run at the same time on one cache; the overall timeout is an input that replaces the
-- rest of a cycle. Fuel: `range_from` gets the length of the list, and each step goes on by at least
-- one; `blocks_from` gets the length of the text and goes on by 16; `acquire` of Locking.antt gets
-- two rounds, since after a stale file is removed the path is free.
--
-- A state file holds what the program writes there, or is missing, or no JSON, or raises when it is read.
--
-- Not modelled: log output and what `validate` prints, the command line, and the scripts that provision
-- a server. The closing of cached connections is a function of its own, not a step of `run_async`.
pub mod Prelude
pub mod Models
pub mod Scheduler
pub mod Registry
pub mod Router
pub mod Runner
pub mod Log
pub mod Sender
pub mod StateManager
pub mod Locking
pub mod Config
pub mod Crypto
pub mod DbLoader
pub mod Database
pub mod Probe
pub mod Network
pub mod Host
pub mod Main
mod Tests
