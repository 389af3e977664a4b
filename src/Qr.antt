-- ===== src/Qr.antt =====
-- backend/app/domain/qr_svg.py: a QR code of version 5 as an SVG image.
pub mod Field
pub mod Codewords
pub mod Matrix
pub mod Svg
