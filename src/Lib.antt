-- ===== src/Lib.antt =====
-- A verification of chimes-utils, a Rust crate of helpers for web services.
--
-- Parts of the program and the files that model them. Paths of the repository stand behind a colon; a
-- definition has the name of the function or type that it models.
--
-- - Base and its children: shared names, lists, numbers, texts and dictionaries. A text is the list
--   of its code points, a HashMap an association list; no iteration order is used.
-- - Str and its children: the methods of Rust's str and String that the code calls, with their laws
--   (Marks counts a character, Split and Unsplit cut and join, Number and Digits read numbers and what is printed of them).
-- - Sql: src/utils/rbatis_dynamical.rs. Sql.Wrapper holds DynamicWrapper, its connectives, push and
--   trimming, Sql.Condition the conditions (Compare the comparisons), Sql.Clause the clauses, Sql.Rbatis what is taken from
--   the crates rbatis and rbson as a parameter: the words of TEMPLATE, stmt_convert, and the readings of
--   Bson values. Balance, Connective, Join and Push hold the proofs.
-- - Cache: the map APP_DATA of src/utils/global_data.rs, with its mutex: an operation is done or blocked.
-- - Codec: the string codes of src/utils/global_data.rs, over a list of drawn random numbers.
-- - Lenient: the readings of number and bool fields in src/utils/global_data.rs; what serde makes of a
--   field is the argument. Rsa and Decimal: the RSA functions and the decimal helpers of the same file, with
--   the crates and floating point as parameters.
-- - Queue: src/utils/queue.rs, its methods and one round of its worker. Queue.History lets calls,
--   rounds and ends of workers follow each other in any order, with starts whose runtime cannot be
--   built and rounds that a panic breaks off (Queue.Broken).
-- - Mail: src/utils/mail.rs, its methods, send_email and the steps of a worker, with the crate lettre as a
--   parameter. Mail.Steps lets calls and steps of any number of workers follow each other. Its pops are
--   not excluded from each other by a lock: a pop reads a list that is an argument of the step, and two
--   kinds of steps let accesses overlap (Mail.Overlap).
-- - Config: the configuration of src/utils/mod.rs. Config.Load models load_yaml, with yaml-rust and
--   log as parameters; a field of the model reads the same key as the source.
-- - Texts: the text functions of src/utils/mod.rs. The decoding of percent signs is a parameter. Database:
--   its database connections, over rbatis; Files: its hash and size of files, over openssl and f64.
-- - Script: src/utils/script_engine.rs over base64, rhai and tera.
-- - Search: src/utils/common_search.rs, over the wrapper of rbatis as a parameter.
-- - Gateway: src/utils/gpt_sdk.rs, its registry of proxies. Gateway.Register models the registration at
--   the gateway, Gateway.Health the health check and the two queued tasks, with serde_json as a parameter.
-- - Counters: the ten counters of src/utils/performance.rs, each call one step.
-- - Proc: src/utils/linux_performance.rs over the text of the files under /proc; Proc.Info is
--   get_performance_info of src/utils/performance.rs.
-- - Windows: src/utils/windows_performance.rs over the answers of the Win32 interface: threads, times and
--   memory. Windows.Network models the scan of the TCP connections, Windows.Table the loop that gets
--   their table, and Windows.Info get_performance_info of src/utils/performance.rs for Windows.
-- - Errors: src/errors.rs, the crate's error type, which Redis, Http and Gateway answer with.
-- - Redis: src/utils/redis_client.rs over the crates redis and r2d2; the state of the server goes
--   through every request. Redis.Pool holds the static pool and the functions on keys.
-- - Http: src/utils/actix_client.rs, the client with its headers; Http.Requests holds its requests, over
--   awc, mime and encoding_rs as parameters. Websocket models the WebSocket client of the same file, over
--   a list of what the turns of its loop meet.
-- - Wechat: src/wechat/errors.rs and src/wechat/mod.rs, with serde_json as a parameter; Wechat.Token:
--   src/wechat/token.rs, with the HTTP client and the clock as arguments; Wechat.Message:
--   src/wechat/message.rs over Http.
--
-- How they interact: Config gives the mail queue its account (Mail.EmailServerConfig), the mail worker
-- resizes the cache when its wait runs out, and Search builds conditions on the wrapper of rbatis, whose
-- counterpart in the crate is Sql. Gateway posts through Http, reports what Proc and Counters tell, and
-- queues its tasks on Queue, where Gateway.Schedule follows them; Redis is built from what Config loads.
-- The dictionary of Base serves Cache, Queue, Texts, Gateway and Wechat.
--
-- Conventions. Numbers are natural numbers with the wrap-around of the release build written out
-- (wrap64, and as_unsigned and as_i32 for casts). What the code reads from outside (the clock, random
-- numbers, answers of servers, files) is an argument. A panic is none where the code has no other
-- failure, and a constructor of its own where it has one. An await ends a step of a history, but for
-- the wait of a mail worker for its read lock; a lock that is released within a function makes that function one step.
--
-- Fuel: encode_loop of Codec has one unit more than the number it writes, which its division by the
-- length of the alphabet never uses up; show of Str has one unit more than its number; the loops that
-- strip a prefix or a suffix have the length of the text; load_table of Windows.Table needs one unit more
-- than the bytes that are missing. All other loops are structural recursion.
--
-- Not modelled: the Windows service of src/utils/windows_service_utils.rs, which consists of calls of the
-- operating system; the TLS settings of the HTTP client; the functions that only read a clock, set a
-- file mode, write a file, format a date or encode a URL by one call of a library, in src/utils/mod.rs,
-- src/utils/global_data.rs and src/utils/script_engine.rs; and the log files of src/errors.rs and
-- src/wechat/errors.rs.
pub mod Base
pub mod Str
pub mod Sql
pub mod Cache
pub mod Codec
pub mod Queue
pub mod Texts
pub mod Counters
pub mod Mail
pub mod Config
pub mod Search
pub mod Wechat
pub mod Lenient
pub mod Gateway
pub mod Errors
pub mod Redis
pub mod Http
pub mod Websocket
pub mod Proc
pub mod Script
pub mod Rsa
pub mod Database
pub mod Decimal
pub mod Files
pub mod Windows
