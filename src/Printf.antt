-- ===== src/Printf.antt =====
-- Formatted output: libc/stdio/printf.c.
pub mod Number
pub mod Directive
pub mod Format
