-- ===== src/Calc.antt =====
-- calc: the memory calculator. Sizes are in Calc/Size, the JVM flags and the regions that they
-- configure in Calc/Flags and Calc/Regions, and the calculation in Calc/Calculator.
pub mod Size
pub mod Flags
pub mod Regions
pub mod Calculator
mod Tests
