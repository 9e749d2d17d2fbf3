-- ===== src/Utils.antt =====
-- src/utils: the string helpers of `Utils`, and the archives.
pub mod BigAdd
pub mod Strings
pub mod Tar
pub mod Templates
