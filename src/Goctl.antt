-- ===== src/Goctl.antt =====
-- The code generator under tools/goctl, of which the scanner of api files is modelled.
mod Tests
pub mod Token
pub mod Scanner
