-- ===== src/Demo.antt =====
-- test-proc and sysfs: two modules that show a variable of the kernel as a file.
pub mod Proc
pub mod Sysfs
pub mod Life
mod Tests
