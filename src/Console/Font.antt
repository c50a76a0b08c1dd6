-- ===== src/Console/Font.antt =====
-- The 8 by 8 font of kernel/kconsole.c, one list of eight rows per character, the leftmost pixel
-- in the highest bit.
use jeos.Prelude.{ℕ, List, [], ◌∷◌}

unfoldable pub font8x8 : List (List ℕ)
font8x8 =
    (0 ∷ 0 ∷ 0 ∷ 0 ∷ 0 ∷ 0 ∷ 0 ∷ 0 ∷ [])
    ∷ (126 ∷ 129 ∷ 165 ∷ 129 ∷ 189 ∷ 153 ∷ 129 ∷ 126 ∷ [])
    ∷ (126 ∷ 255 ∷ 219 ∷ 255 ∷ 195 ∷ 231 ∷ 255 ∷ 126 ∷ [])
    ∷ (108 ∷ 254 ∷ 254 ∷ 254 ∷ 124 ∷ 56 ∷ 16 ∷ 0 ∷ [])
    ∷ (16 ∷ 56 ∷ 124 ∷ 254 ∷ 124 ∷ 56 ∷ 16 ∷ 0 ∷ [])
    ∷ (56 ∷ 124 ∷ 56 ∷ 254 ∷ 254 ∷ 16 ∷ 16 ∷ 124 ∷ [])
    ∷ (16 ∷ 16 ∷ 56 ∷ 124 ∷ 254 ∷ 124 ∷ 16 ∷ 124 ∷ [])
    ∷ (0 ∷ 0 ∷ 24 ∷ 60 ∷ 60 ∷ 24 ∷ 0 ∷ 0 ∷ [])
    ∷ (255 ∷ 255 ∷ 231 ∷ 195 ∷ 195 ∷ 231 ∷ 255 ∷ 255 ∷ [])
    ∷ (0 ∷ 60 ∷ 102 ∷ 66 ∷ 66 ∷ 102 ∷ 60 ∷ 0 ∷ [])
    ∷ (255 ∷ 195 ∷ 153 ∷ 189 ∷ 189 ∷ 153 ∷ 195 ∷ 255 ∷ [])
    ∷ (15 ∷ 7 ∷ 15 ∷ 125 ∷ 204 ∷ 204 ∷ 204 ∷ 120 ∷ [])
    ∷ (60 ∷ 102 ∷ 102 ∷ 102 ∷ 60 ∷ 24 ∷ 126 ∷ 24 ∷ [])
    ∷ (63 ∷ 51 ∷ 63 ∷ 48 ∷ 48 ∷ 112 ∷ 240 ∷ 224 ∷ [])
    ∷ (127 ∷ 99 ∷ 127 ∷ 99 ∷ 99 ∷ 103 ∷ 230 ∷ 192 ∷ [])
    ∷ (153 ∷ 90 ∷ 60 ∷ 231 ∷ 231 ∷ 60 ∷ 90 ∷ 153 ∷ [])
    ∷ (128 ∷ 224 ∷ 248 ∷ 254 ∷ 248 ∷ 224 ∷ 128 ∷ 0 ∷ [])
    ∷ (2 ∷ 14 ∷ 62 ∷ 254 ∷ 62 ∷ 14 ∷ 2 ∷ 0 ∷ [])
    ∷ (24 ∷ 60 ∷ 126 ∷ 24 ∷ 24 ∷ 126 ∷ 60 ∷ 24 ∷ [])
    ∷ (102 ∷ 102 ∷ 102 ∷ 102 ∷ 102 ∷ 0 ∷ 102 ∷ 0 ∷ [])
    ∷ (127 ∷ 219 ∷ 219 ∷ 123 ∷ 27 ∷ 27 ∷ 27 ∷ 0 ∷ [])
    ∷ (62 ∷ 99 ∷ 56 ∷ 108 ∷ 108 ∷ 56 ∷ 204 ∷ 120 ∷ [])
    ∷ (0 ∷ 0 ∷ 0 ∷ 0 ∷ 126 ∷ 126 ∷ 126 ∷ 0 ∷ [])
    ∷ (24 ∷ 60 ∷ 126 ∷ 24 ∷ 126 ∷ 60 ∷ 24 ∷ 255 ∷ [])
    ∷ (24 ∷ 60 ∷ 126 ∷ 24 ∷ 24 ∷ 24 ∷ 24 ∷ 0 ∷ [])
    ∷ (24 ∷ 24 ∷ 24 ∷ 24 ∷ 126 ∷ 60 ∷ 24 ∷ 0 ∷ [])
    ∷ (0 ∷ 24 ∷ 12 ∷ 254 ∷ 12 ∷ 24 ∷ 0 ∷ 0 ∷ [])
    ∷ (0 ∷ 48 ∷ 96 ∷ 254 ∷ 96 ∷ 48 ∷ 0 ∷ 0 ∷ [])
    ∷ (0 ∷ 0 ∷ 192 ∷ 192 ∷ 192 ∷ 254 ∷ 0 ∷ 0 ∷ [])
    ∷ (0 ∷ 36 ∷ 102 ∷ 255 ∷ 102 ∷ 36 ∷ 0 ∷ 0 ∷ [])
    ∷ (0 ∷ 24 ∷ 60 ∷ 126 ∷ 255 ∷ 255 ∷ 0 ∷ 0 ∷ [])
    ∷ (0 ∷ 255 ∷ 255 ∷ 126 ∷ 60 ∷ 24 ∷ 0 ∷ 0 ∷ [])
    ∷ (0 ∷ 0 ∷ 0 ∷ 0 ∷ 0 ∷ 0 ∷ 0 ∷ 0 ∷ [])
    ∷ (24 ∷ 60 ∷ 60 ∷ 24 ∷ 24 ∷ 0 ∷ 24 ∷ 0 ∷ [])
    ∷ (108 ∷ 108 ∷ 72 ∷ 0 ∷ 0 ∷ 0 ∷ 0 ∷ 0 ∷ [])
    ∷ (108 ∷ 108 ∷ 254 ∷ 108 ∷ 254 ∷ 108 ∷ 108 ∷ 0 ∷ [])
    ∷ (24 ∷ 126 ∷ 216 ∷ 124 ∷ 27 ∷ 126 ∷ 24 ∷ 0 ∷ [])
    ∷ (0 ∷ 102 ∷ 108 ∷ 24 ∷ 48 ∷ 102 ∷ 6 ∷ 0 ∷ [])
    ∷ (56 ∷ 108 ∷ 56 ∷ 118 ∷ 220 ∷ 204 ∷ 118 ∷ 0 ∷ [])
    ∷ (48 ∷ 48 ∷ 96 ∷ 0 ∷ 0 ∷ 0 ∷ 0 ∷ 0 ∷ [])
    ∷ (12 ∷ 24 ∷ 48 ∷ 48 ∷ 48 ∷ 24 ∷ 12 ∷ 0 ∷ [])
    ∷ (48 ∷ 24 ∷ 12 ∷ 12 ∷ 12 ∷ 24 ∷ 48 ∷ 0 ∷ [])
    ∷ (0 ∷ 102 ∷ 60 ∷ 255 ∷ 60 ∷ 102 ∷ 0 ∷ 0 ∷ [])
    ∷ (0 ∷ 24 ∷ 24 ∷ 126 ∷ 24 ∷ 24 ∷ 0 ∷ 0 ∷ [])
    ∷ (0 ∷ 0 ∷ 0 ∷ 0 ∷ 0 ∷ 24 ∷ 24 ∷ 48 ∷ [])
    ∷ (0 ∷ 0 ∷ 0 ∷ 126 ∷ 0 ∷ 0 ∷ 0 ∷ 0 ∷ [])
    ∷ (0 ∷ 0 ∷ 0 ∷ 0 ∷ 0 ∷ 24 ∷ 24 ∷ 0 ∷ [])
    ∷ (6 ∷ 12 ∷ 12 ∷ 24 ∷ 48 ∷ 96 ∷ 96 ∷ 0 ∷ [])
    ∷ (60 ∷ 102 ∷ 110 ∷ 118 ∷ 102 ∷ 102 ∷ 60 ∷ 0 ∷ [])
    ∷ (24 ∷ 56 ∷ 24 ∷ 24 ∷ 24 ∷ 24 ∷ 126 ∷ 0 ∷ [])
    ∷ (60 ∷ 102 ∷ 6 ∷ 12 ∷ 24 ∷ 48 ∷ 126 ∷ 0 ∷ [])
    ∷ (60 ∷ 102 ∷ 6 ∷ 28 ∷ 6 ∷ 102 ∷ 60 ∷ 0 ∷ [])
    ∷ (12 ∷ 28 ∷ 60 ∷ 108 ∷ 126 ∷ 12 ∷ 12 ∷ 0 ∷ [])
    ∷ (126 ∷ 96 ∷ 124 ∷ 6 ∷ 6 ∷ 102 ∷ 60 ∷ 0 ∷ [])
    ∷ (28 ∷ 48 ∷ 96 ∷ 124 ∷ 102 ∷ 102 ∷ 60 ∷ 0 ∷ [])
    ∷ (126 ∷ 6 ∷ 12 ∷ 24 ∷ 24 ∷ 48 ∷ 48 ∷ 0 ∷ [])
    ∷ (60 ∷ 102 ∷ 102 ∷ 60 ∷ 102 ∷ 102 ∷ 60 ∷ 0 ∷ [])
    ∷ (60 ∷ 102 ∷ 102 ∷ 62 ∷ 6 ∷ 12 ∷ 56 ∷ 0 ∷ [])
    ∷ (0 ∷ 24 ∷ 24 ∷ 0 ∷ 0 ∷ 24 ∷ 24 ∷ 0 ∷ [])
    ∷ (0 ∷ 24 ∷ 24 ∷ 0 ∷ 0 ∷ 24 ∷ 24 ∷ 48 ∷ [])
    ∷ (12 ∷ 24 ∷ 48 ∷ 96 ∷ 48 ∷ 24 ∷ 12 ∷ 0 ∷ [])
    ∷ (0 ∷ 0 ∷ 126 ∷ 0 ∷ 126 ∷ 0 ∷ 0 ∷ 0 ∷ [])
    ∷ (48 ∷ 24 ∷ 12 ∷ 6 ∷ 12 ∷ 24 ∷ 48 ∷ 0 ∷ [])
    ∷ (60 ∷ 102 ∷ 6 ∷ 12 ∷ 24 ∷ 0 ∷ 24 ∷ 0 ∷ [])
    ∷ (60 ∷ 98 ∷ 110 ∷ 110 ∷ 102 ∷ 64 ∷ 60 ∷ 0 ∷ [])
    ∷ (24 ∷ 60 ∷ 102 ∷ 102 ∷ 126 ∷ 102 ∷ 102 ∷ 0 ∷ [])
    ∷ (124 ∷ 102 ∷ 102 ∷ 124 ∷ 102 ∷ 102 ∷ 124 ∷ 0 ∷ [])
    ∷ (60 ∷ 102 ∷ 96 ∷ 96 ∷ 96 ∷ 102 ∷ 60 ∷ 0 ∷ [])
    ∷ (120 ∷ 108 ∷ 102 ∷ 102 ∷ 102 ∷ 108 ∷ 120 ∷ 0 ∷ [])
    ∷ (126 ∷ 96 ∷ 96 ∷ 124 ∷ 96 ∷ 96 ∷ 126 ∷ 0 ∷ [])
    ∷ (126 ∷ 96 ∷ 96 ∷ 124 ∷ 96 ∷ 96 ∷ 96 ∷ 0 ∷ [])
    ∷ (60 ∷ 102 ∷ 96 ∷ 110 ∷ 102 ∷ 102 ∷ 62 ∷ 0 ∷ [])
    ∷ (102 ∷ 102 ∷ 102 ∷ 126 ∷ 102 ∷ 102 ∷ 102 ∷ 0 ∷ [])
    ∷ (60 ∷ 24 ∷ 24 ∷ 24 ∷ 24 ∷ 24 ∷ 60 ∷ 0 ∷ [])
    ∷ (30 ∷ 12 ∷ 12 ∷ 12 ∷ 12 ∷ 108 ∷ 56 ∷ 0 ∷ [])
    ∷ (102 ∷ 108 ∷ 120 ∷ 112 ∷ 120 ∷ 108 ∷ 102 ∷ 0 ∷ [])
    ∷ (96 ∷ 96 ∷ 96 ∷ 96 ∷ 96 ∷ 96 ∷ 126 ∷ 0 ∷ [])
    ∷ (99 ∷ 119 ∷ 127 ∷ 107 ∷ 99 ∷ 99 ∷ 99 ∷ 0 ∷ [])
    ∷ (102 ∷ 118 ∷ 126 ∷ 110 ∷ 110 ∷ 102 ∷ 102 ∷ 0 ∷ [])
    ∷ (60 ∷ 102 ∷ 102 ∷ 102 ∷ 102 ∷ 102 ∷ 60 ∷ 0 ∷ [])
    ∷ (124 ∷ 102 ∷ 102 ∷ 124 ∷ 96 ∷ 96 ∷ 96 ∷ 0 ∷ [])
    ∷ (60 ∷ 102 ∷ 102 ∷ 102 ∷ 118 ∷ 108 ∷ 54 ∷ 0 ∷ [])
    ∷ (124 ∷ 102 ∷ 102 ∷ 124 ∷ 108 ∷ 102 ∷ 102 ∷ 0 ∷ [])
    ∷ (60 ∷ 102 ∷ 96 ∷ 60 ∷ 6 ∷ 102 ∷ 60 ∷ 0 ∷ [])
    ∷ (126 ∷ 24 ∷ 24 ∷ 24 ∷ 24 ∷ 24 ∷ 24 ∷ 0 ∷ [])
    ∷ (102 ∷ 102 ∷ 102 ∷ 102 ∷ 102 ∷ 102 ∷ 60 ∷ 0 ∷ [])
    ∷ (102 ∷ 102 ∷ 102 ∷ 102 ∷ 102 ∷ 60 ∷ 24 ∷ 0 ∷ [])
    ∷ (99 ∷ 99 ∷ 99 ∷ 107 ∷ 127 ∷ 119 ∷ 99 ∷ 0 ∷ [])
    ∷ (102 ∷ 102 ∷ 60 ∷ 24 ∷ 60 ∷ 102 ∷ 102 ∷ 0 ∷ [])
    ∷ (102 ∷ 102 ∷ 102 ∷ 60 ∷ 24 ∷ 24 ∷ 24 ∷ 0 ∷ [])
    ∷ (126 ∷ 6 ∷ 12 ∷ 24 ∷ 48 ∷ 96 ∷ 126 ∷ 0 ∷ [])
    ∷ (60 ∷ 48 ∷ 48 ∷ 48 ∷ 48 ∷ 48 ∷ 60 ∷ 0 ∷ [])
    ∷ (96 ∷ 48 ∷ 24 ∷ 24 ∷ 12 ∷ 6 ∷ 6 ∷ 0 ∷ [])
    ∷ (60 ∷ 12 ∷ 12 ∷ 12 ∷ 12 ∷ 12 ∷ 60 ∷ 0 ∷ [])
    ∷ (24 ∷ 60 ∷ 102 ∷ 0 ∷ 0 ∷ 0 ∷ 0 ∷ 0 ∷ [])
    ∷ (0 ∷ 0 ∷ 0 ∷ 0 ∷ 0 ∷ 0 ∷ 0 ∷ 255 ∷ [])
    ∷ (24 ∷ 24 ∷ 12 ∷ 0 ∷ 0 ∷ 0 ∷ 0 ∷ 0 ∷ [])
    ∷ (0 ∷ 0 ∷ 60 ∷ 6 ∷ 62 ∷ 102 ∷ 62 ∷ 0 ∷ [])
    ∷ (96 ∷ 96 ∷ 124 ∷ 102 ∷ 102 ∷ 102 ∷ 124 ∷ 0 ∷ [])
    ∷ (0 ∷ 0 ∷ 60 ∷ 102 ∷ 96 ∷ 102 ∷ 60 ∷ 0 ∷ [])
    ∷ (6 ∷ 6 ∷ 62 ∷ 102 ∷ 102 ∷ 102 ∷ 62 ∷ 0 ∷ [])
    ∷ (0 ∷ 0 ∷ 60 ∷ 102 ∷ 126 ∷ 96 ∷ 60 ∷ 0 ∷ [])
    ∷ (28 ∷ 48 ∷ 48 ∷ 124 ∷ 48 ∷ 48 ∷ 48 ∷ 0 ∷ [])
    ∷ (0 ∷ 0 ∷ 62 ∷ 102 ∷ 102 ∷ 62 ∷ 6 ∷ 60 ∷ [])
    ∷ (96 ∷ 96 ∷ 124 ∷ 102 ∷ 102 ∷ 102 ∷ 102 ∷ 0 ∷ [])
    ∷ (24 ∷ 0 ∷ 56 ∷ 24 ∷ 24 ∷ 24 ∷ 60 ∷ 0 ∷ [])
    ∷ (6 ∷ 0 ∷ 14 ∷ 6 ∷ 6 ∷ 102 ∷ 60 ∷ 0 ∷ [])
    ∷ (96 ∷ 96 ∷ 102 ∷ 108 ∷ 120 ∷ 108 ∷ 102 ∷ 0 ∷ [])
    ∷ (56 ∷ 24 ∷ 24 ∷ 24 ∷ 24 ∷ 24 ∷ 60 ∷ 0 ∷ [])
    ∷ (0 ∷ 0 ∷ 102 ∷ 127 ∷ 107 ∷ 99 ∷ 99 ∷ 0 ∷ [])
    ∷ (0 ∷ 0 ∷ 124 ∷ 102 ∷ 102 ∷ 102 ∷ 102 ∷ 0 ∷ [])
    ∷ (0 ∷ 0 ∷ 60 ∷ 102 ∷ 102 ∷ 102 ∷ 60 ∷ 0 ∷ [])
    ∷ (0 ∷ 0 ∷ 124 ∷ 102 ∷ 102 ∷ 124 ∷ 96 ∷ 96 ∷ [])
    ∷ (0 ∷ 0 ∷ 62 ∷ 102 ∷ 102 ∷ 62 ∷ 6 ∷ 6 ∷ [])
    ∷ (0 ∷ 0 ∷ 108 ∷ 118 ∷ 96 ∷ 96 ∷ 96 ∷ 0 ∷ [])
    ∷ (0 ∷ 0 ∷ 62 ∷ 96 ∷ 60 ∷ 6 ∷ 124 ∷ 0 ∷ [])
    ∷ (24 ∷ 24 ∷ 126 ∷ 24 ∷ 24 ∷ 24 ∷ 14 ∷ 0 ∷ [])
    ∷ (0 ∷ 0 ∷ 102 ∷ 102 ∷ 102 ∷ 102 ∷ 62 ∷ 0 ∷ [])
    ∷ (0 ∷ 0 ∷ 102 ∷ 102 ∷ 102 ∷ 60 ∷ 24 ∷ 0 ∷ [])
    ∷ (0 ∷ 0 ∷ 99 ∷ 107 ∷ 127 ∷ 54 ∷ 54 ∷ 0 ∷ [])
    ∷ (0 ∷ 0 ∷ 102 ∷ 60 ∷ 24 ∷ 60 ∷ 102 ∷ 0 ∷ [])
    ∷ (0 ∷ 0 ∷ 102 ∷ 102 ∷ 102 ∷ 62 ∷ 6 ∷ 60 ∷ [])
    ∷ (0 ∷ 0 ∷ 126 ∷ 12 ∷ 24 ∷ 48 ∷ 126 ∷ 0 ∷ [])
    ∷ (14 ∷ 24 ∷ 24 ∷ 112 ∷ 24 ∷ 24 ∷ 14 ∷ 0 ∷ [])
    ∷ (24 ∷ 24 ∷ 24 ∷ 0 ∷ 24 ∷ 24 ∷ 24 ∷ 0 ∷ [])
    ∷ (112 ∷ 24 ∷ 24 ∷ 14 ∷ 24 ∷ 24 ∷ 112 ∷ 0 ∷ [])
    ∷ (118 ∷ 220 ∷ 0 ∷ 0 ∷ 0 ∷ 0 ∷ 0 ∷ 0 ∷ [])
    ∷ (0 ∷ 0 ∷ 0 ∷ 0 ∷ 0 ∷ 0 ∷ 0 ∷ 0 ∷ [])
    ∷ []
