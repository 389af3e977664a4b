-- ===== src/Qr/Svg.antt =====
-- `qr_svg` of backend/app/domain/qr_svg.py. The encoding of a text as UTF-8 is a parameter.
pub mod Readable
use vpp_wl_mobile.Prelude.{
  ℕ, ◌+◌, ◌*◌, String, Bool, List, [], ◌∷◌, ◌++◌, ltb, if◌then◌else◌, length, concat, decimal,
}
use vpp_wl_mobile.Errors.{Result, ok, raised, Error, value_error}
use vpp_wl_mobile.Qr.Codewords.{data_codewords, raw_bits}
use vpp_wl_mobile.Qr.Field.{reed_solomon_remainder}
use vpp_wl_mobile.Qr.Matrix.{
  Grid, Symbol, size, empty_matrix, draw_patterns, draw_data, draw_format_bits,
}

-- The text of a module at (x, y), if it is dark.
unfoldable pub module_rect : ℕ → ℕ → ℕ → ℕ → Bool → String
unfolding concat decimal
module_rect scale border y x value =
    if value
    then concat (
        "<rect x=\""
        ∷ decimal ((x + border) * scale)
        ∷ "\" y=\""
        ∷ decimal ((y + border) * scale)
        ∷ "\" width=\""
        ∷ decimal scale
        ∷ "\" height=\""
        ∷ decimal scale
        ∷ "\" fill=\"#05070d\"/>"
        ∷ [])
    else ""

-- The two loops of `_matrix_to_svg`, from a row and from a module on.
unfoldable pub row_rects : ℕ → ℕ → ℕ → ℕ → List Bool → List String
unfolding module_rect
row_rects scale border y x [] = []
row_rects scale border y x (value ∷ row) =
    module_rect scale border y x value ∷ row_rects scale border y (x + 1) row

unfoldable pub grid_rects : ℕ → ℕ → ℕ → Grid → List String
unfolding row_rects
grid_rects scale border y [] = []
grid_rects scale border y (row ∷ rows) =
    row_rects scale border y 0 row ++ grid_rects scale border (y + 1) rows

-- `_matrix_to_svg`
unfoldable pub matrix_to_svg : Grid → ℕ → ℕ → String
unfolding concat decimal grid_rects
matrix_to_svg matrix scale border =
    let length_of_side = decimal ((size + border * 2) * scale) in
    concat (
      "<svg xmlns=\"http://www.w3.org/2000/svg\" viewBox=\"0 0 "
      ∷ length_of_side
      ∷ " "
      ∷ length_of_side
      ∷ "\" width=\""
      ∷ length_of_side
      ∷ "\" height=\""
      ∷ length_of_side
      ∷ "\" role=\"img\" aria-label=\"QR code\">"
      ∷ "<rect width=\"100%\" height=\"100%\" fill=\"#ffffff\"/>"
      ∷ (grid_rects scale border 0 matrix ++ ("</svg>" ∷ [])))

-- The codewords of a message, and those that correct their errors.
unfoldable pub full_codewords : List ℕ → List ℕ
unfolding data_codewords reed_solomon_remainder
full_codewords raw =
    let codewords = data_codewords raw in codewords ++ reed_solomon_remainder codewords 26

-- The symbol before its format bits are drawn.
unfoldable pub data_symbol : List ℕ → Symbol
unfolding draw_data draw_patterns empty_matrix raw_bits full_codewords
data_symbol raw = draw_data (draw_patterns empty_matrix) (raw_bits (full_codewords raw))

-- `qr_svg`
unfoldable pub qr_svg : (String → List ℕ) → String → ℕ → ℕ → Result String
unfolding data_symbol draw_format_bits matrix_to_svg
qr_svg encode text scale border =
    let raw = encode text in
    if ltb 106 (length raw)
    then raised (value_error "QR data is too long for MVP encoder")
    else ok (matrix_to_svg (draw_format_bits (data_symbol raw)).matrix scale border)
