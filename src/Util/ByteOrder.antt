-- ===== src/Util/ByteOrder.antt =====
-- util.h: what ntoh does to the bytes of a word on a little-endian machine.
use decom.Base.{ℕ, ◌+◌, ◌*◌, ◌^◌, ◌<◌, ◌≡◌, List, [], ◌∷◌, arith}
use decom.Util.{ntoh16, ntoh32, ntoh64}

-- The word with the given bytes, the least significant first.
abbrev pub word : List ℕ → ℕ
word [] = 0
word (b ∷ bytes) = b + 2 ^ 8 * word bytes

module _ (a b c d : ℕ) (ha : a < 256) (hb : b < 256) (hc : c < 256) (hd : d < 256) where
  ntoh16-word : ntoh16 (word (a ∷ b ∷ [])) ≡ word (b ∷ a ∷ [])
  unfolding ntoh16
  ntoh16-word = omega arith

  ntoh32-word : ntoh32 (word (a ∷ b ∷ c ∷ d ∷ [])) ≡ word (d ∷ c ∷ b ∷ a ∷ [])
  unfolding ntoh32
  ntoh32-word = omega arith

  ntoh64-word :
      (e f g h : ℕ)
      → e < 256
      → f < 256
      → g < 256
      → h < 256
      → ntoh64 (word (a ∷ b ∷ c ∷ d ∷ e ∷ f ∷ g ∷ h ∷ []))
        ≡ word (h ∷ g ∷ f ∷ e ∷ d ∷ c ∷ b ∷ a ∷ [])
  unfolding ntoh64
  ntoh64-word e f g h he hf hg hh = omega arith

-- On a little-endian machine ntoh of 16, 32 and 64 bits gives the word with the same bytes in the
-- opposite order, for all bytes.
pub ntoh_reverses :
    (a b c d e f g h : ℕ)
    → a < 256
    → b < 256
    → c < 256
    → d < 256
    → e < 256
    → f < 256
    → g < 256
    → h < 256
    → (ntoh16 (word (a ∷ b ∷ [])) ≡ word (b ∷ a ∷ []))
      × (ntoh32 (word (a ∷ b ∷ c ∷ d ∷ [])) ≡ word (d ∷ c ∷ b ∷ a ∷ []))
      × (ntoh64 (word (a ∷ b ∷ c ∷ d ∷ e ∷ f ∷ g ∷ h ∷ []))
          ≡ word (h ∷ g ∷ f ∷ e ∷ d ∷ c ∷ b ∷ a ∷ []))
ntoh_reverses a b c d e f g h ha hb hc hd he hf hg hh = (
  ntoh16-word a b c d ha hb hc hd,
  ntoh32-word a b c d ha hb hc hd,
  ntoh64-word a b c d ha hb hc hd e f g h he hf hg hh,
)
