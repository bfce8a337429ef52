-- ===== src/AppMain.antt =====
-- app/src/main.c: whether the network is connected, the blinking of `main`, and the commands that
-- it answers.
pub mod Network
pub mod Led
pub mod Commands
pub mod Answers
pub mod Start
pub mod Started
mod Runs
