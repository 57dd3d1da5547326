-- ===== src/Keyboard/Keys.antt =====
-- src/keyboard.c: the cases of the switch in keyboard_decode, as tables of scan codes.
use wuros.Prelude.{ℕ, List, [], ◌∷◌, ◌++◌}

-- The keys that are held down
pub data Modifier : Type 0 where
  ctrl_l ctrl_r shift_l shift_r alt_l alt_r : Modifier

-- What a case does. `plain` is `d = c`; `shifted`, `letter` and `numpad` call shift_decode,
-- letter_decode and numlock_decode; `press` and `release` set and clear a flag; the others toggle.
pub data Key : Type 0 where
  plain : ℕ → Key
  shifted letter numpad : ℕ → ℕ → Key
  press release : Modifier → Key
  caps_lock num_lock : Key

-- From the scan code 0x00 to the tabulator
abbrev pub number_keys : List (ℕ × Key)
number_keys =
    (0, plain 0)
    ∷ (1, plain 27)
    ∷ (2, shifted 49 33)
    ∷ (3, shifted 50 64)
    ∷ (4, shifted 51 35)
    ∷ (5, shifted 52 36)
    ∷ (6, shifted 53 37)
    ∷ (7, shifted 54 94)
    ∷ (8, shifted 55 38)
    ∷ (9, shifted 56 42)
    ∷ (10, shifted 57 40)
    ∷ (11, shifted 48 41)
    ∷ (12, shifted 45 95)
    ∷ (13, shifted 61 43)
    ∷ (14, plain 8)
    ∷ (15, plain 9)
    ∷ []

-- From Q to the left shift key
abbrev pub upper_keys : List (ℕ × Key)
upper_keys =
    (16, letter 113 81)
    ∷ (17, letter 119 87)
    ∷ (18, letter 101 69)
    ∷ (19, letter 114 82)
    ∷ (20, letter 116 84)
    ∷ (21, letter 121 89)
    ∷ (22, letter 117 85)
    ∷ (23, letter 105 73)
    ∷ (24, letter 111 79)
    ∷ (25, letter 112 80)
    ∷ (26, shifted 91 123)
    ∷ (27, shifted 93 125)
    ∷ (28, plain 10)
    ∷ (29, press ctrl_l)
    ∷ (157, release ctrl_l)
    ∷ (57373, press ctrl_r)
    ∷ (57501, release ctrl_r)
    ∷ (30, letter 97 65)
    ∷ (31, letter 115 83)
    ∷ (32, letter 100 68)
    ∷ (33, letter 102 70)
    ∷ (34, letter 103 71)
    ∷ (35, letter 104 72)
    ∷ (36, letter 106 74)
    ∷ (37, letter 107 75)
    ∷ (38, letter 108 76)
    ∷ (39, shifted 59 58)
    ∷ (40, shifted 39 34)
    ∷ (41, shifted 96 126)
    ∷ (42, press shift_l)
    ∷ (170, release shift_l)
    ∷ []

-- From the backslash to the space bar
abbrev pub lower_keys : List (ℕ × Key)
lower_keys =
    (43, shifted 92 124)
    ∷ (44, letter 122 90)
    ∷ (45, letter 120 88)
    ∷ (46, letter 99 67)
    ∷ (47, letter 118 86)
    ∷ (48, letter 98 66)
    ∷ (49, letter 110 78)
    ∷ (50, letter 109 77)
    ∷ (51, shifted 44 60)
    ∷ (52, shifted 46 62)
    ∷ (53, shifted 47 63)
    ∷ (54, press shift_r)
    ∷ (182, release shift_r)
    ∷ (55, plain 42)
    ∷ (56, press alt_l)
    ∷ (184, release alt_l)
    ∷ (57400, press alt_r)
    ∷ (57528, release alt_r)
    ∷ (57, plain 32)
    ∷ []

-- From the caps lock to F12
abbrev pub function_keys : List (ℕ × Key)
function_keys =
    (58, caps_lock)
    ∷ (59, plain 241)
    ∷ (60, plain 242)
    ∷ (61, plain 243)
    ∷ (62, plain 244)
    ∷ (63, plain 245)
    ∷ (64, plain 246)
    ∷ (65, plain 247)
    ∷ (66, plain 248)
    ∷ (67, plain 249)
    ∷ (68, plain 250)
    ∷ (69, num_lock)
    ∷ (70, plain 0)
    ∷ (71, numpad 55 224)
    ∷ (72, numpad 56 226)
    ∷ (73, numpad 57 230)
    ∷ (74, plain 45)
    ∷ (75, numpad 52 228)
    ∷ (76, numpad 53 0)
    ∷ (77, numpad 54 229)
    ∷ (78, plain 43)
    ∷ (79, numpad 49 225)
    ∷ (80, numpad 50 227)
    ∷ (81, numpad 51 231)
    ∷ (82, numpad 48 232)
    ∷ (83, numpad 46 233)
    ∷ (87, plain 251)
    ∷ (88, plain 252)
    ∷ []

-- The switch
abbrev pub keys : List (ℕ × Key)
keys = number_keys ++ (upper_keys ++ (lower_keys ++ function_keys))
