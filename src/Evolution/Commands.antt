-- ===== src/Evolution/Commands.antt =====
-- worker/processing/command_processor.py and worker/work_items.py and the permitted change of the
-- database.
pub mod Claims
pub mod Settle
pub mod Run
