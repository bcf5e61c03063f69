-- ===== src/Cmd.antt =====
-- cmd/: the command line (Urls, Args), the two processes (Daemon), the main functions (Program), and
-- what they call of package strings (Words).
pub mod Words
pub mod Urls
pub mod Args
pub mod Daemon
pub mod Program
