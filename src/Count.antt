-- ===== src/Count.antt =====
-- count: the number of classes of a JVM or an application. A jimage file (lib/modules) is read in
-- Count/Reader, Count/Strings, Count/Location and Count/Image; jars and directories are counted in
-- Count/Classes.
pub mod Reader
pub mod Strings
pub mod Location
pub mod Image
pub mod Classes
mod Tests
