-- ===== src/Runtime.antt =====
-- The local asynchronous runtime (src/actionstream/runtime.py): this file only lists the modules.
pub mod Requests
pub mod Queue
pub mod Worker
