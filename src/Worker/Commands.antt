-- ===== src/Worker/Commands.antt =====
-- worker/processing/command_processor.py: stop and cleanup commands, which run beside the pipeline.
pub mod Claims
pub mod Settle
pub mod Run
