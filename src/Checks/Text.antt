-- ===== src/Checks/Text.antt =====
-- The standard library's text operations at concrete texts.
use pgfault.Base.{◌≡◌, refl, [], ◌∷◌}
use pgfault.Base.Text.{from_utf8_lossy, to_ascii_uppercase}

lossy_mixed :
    from_utf8_lossy (b'a' ∷ 0xe2 ∷ 0x82 ∷ 0xac ∷ 0xe2 ∷ 0x28 ∷ 0xff ∷ 0xf0 ∷ 0x9f ∷ []) ≡ "a€�(��"
unfolding from_utf8_lossy
lossy_mixed = refl

upper_word : to_ascii_uppercase "commit_2" ≡ "COMMIT_2"
unfolding to_ascii_uppercase
upper_word = refl
