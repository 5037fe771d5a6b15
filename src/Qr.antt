-- ===== src/Qr.antt =====
-- static/lib/qrcode/qrcode.js, a module for each of its parts.
pub mod BitBuffer
pub mod EightBitByte
pub mod Result
pub mod RsBlock
pub mod TypeNumber
pub mod CreateData
pub mod MakeCode
pub mod Field
pub mod Bch
pub mod Polynomial
pub mod CreateBytes
pub mod Modules
pub mod MapData
pub mod LostPoint
pub mod MakeImpl
mod Tests
mod SymbolTests
