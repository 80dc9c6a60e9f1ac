-- ===== src/Keylog/Runs.antt =====
-- Tests of the key log's lines.
use ipcap.Base.{◌≡◌, refl, [], ◌∷◌, ◌++◌, true, false}
use ipcap.Keylog.{codes, valid, trim_space, fields}

valid_line : valid (codes " CLIENT_RANDOM 00aF\t12 " ++ (13 ∷ 10 ∷ [])) ≡ true
unfolding valid
valid_line = refl

unknown_label : valid (codes "CLIENT 00 12") ≡ false
unfolding valid
unknown_label = refl

zero_padded : valid (codes "CLIENT_RANDOM 00 12" ++ (0 ∷ 0 ∷ [])) ≡ false
unfolding valid
zero_padded = refl

-- U+00A0 and U+2003 are white space.
wide_space :
    trim_space (0xc2 ∷ 0xa0 ∷ 65 ∷ 0xe2 ∷ 0x80 ∷ 0x83 ∷ 66 ∷ 0xe2 ∷ 0x80 ∷ 0x83 ∷ [])
    ≡ 65 ∷ 0xe2 ∷ 0x80 ∷ 0x83 ∷ 66 ∷ []
unfolding trim_space
wide_space = refl

three_fields : fields (codes "a  bc\td") ≡ codes "a" ∷ codes "bc" ∷ codes "d" ∷ []
unfolding fields
three_fields = refl
