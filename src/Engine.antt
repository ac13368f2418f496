-- ===== src/Engine.antt =====
-- The inference engine (src/actionstream/inference_engine.py, action_queue.py,
-- delivery_scheduler.py and inference_types.py): this file only lists the modules.
pub mod Types
pub mod State
pub mod Queue
pub mod Delivery
pub mod Lifecycle
pub mod Observing
pub mod Worker
pub mod Episode
pub mod System
pub mod Samples
