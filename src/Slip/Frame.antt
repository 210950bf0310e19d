-- ===== src/Slip/Frame.antt =====
-- The frames of prot_slip.h: what `send` puts on the wire.
use decom.Base.{
  ℕ, List, [], ◌∷◌, ◌++◌, Bool, true, false, snoc, ◌≡◌, refl, ◌≢◌, All, All-append, append-nil,
  append_assoc, arith,
}
use decom.Layer.{Eid, Effect, to_lower, to_upper, indicate, close_lower}
use decom.Slip.{Slip, end_byte, stuff_byte, stuff, send}

-- The bytes that a list of effects hands to the lower layer.
abbrev pub wire : List Effect → List ℕ
wire [] = []
wire (to_lower bytes id more ∷ es) = bytes ++ wire es
wire (to_upper bytes id more ∷ es) = wire es
wire (indicate code id ∷ es) = wire es
wire (close_lower id ∷ es) = wire es

-- Every byte stuffed: the code between the two delimiters.
unfoldable pub escape : List ℕ → List ℕ
escape [] = []
escape (x ∷ packet) = stuff_byte x ++ escape packet

abbrev pub frame : List ℕ → List ℕ
frame packet = end_byte ∷ snoc (escape packet) end_byte

pub stuff-escape : (tx packet : List ℕ) → stuff tx packet ≡ tx ++ escape packet
unfolding stuff escape
stuff-escape tx [] = rw append-nil
stuff-escape tx (x ∷ packet) = rw (stuff-escape (tx ++ stuff_byte x) packet, append_assoc)

pub escape-append : (xs ys : List ℕ) → escape (xs ++ ys) ≡ escape xs ++ escape ys
unfolding escape
escape-append [] ys = refl
escape-append (x ∷ xs) ys = rw (escape-append xs ys, append_assoc)

NotEnd : ℕ → Type 0
NotEnd x = x ≢ end_byte

stuff_byte_no_end : (x : ℕ) → All (λ b. b ≢ end_byte) (stuff_byte x)
unfolding stuff_byte
stuff_byte_no_end x = ground arith

-- The delimiter never occurs inside a frame.
pub escape_no_end : (packet : List ℕ) → All (λ b. b ≢ end_byte) (escape packet)
unfolding escape
escape_no_end [] = tt
escape_no_end (x ∷ packet) =
    All-append (λ b. b ≢ end_byte) (stuff_byte x) (escape packet) (stuff_byte_no_end x)
      (escape_no_end packet)

-- What a sender with an empty buffer does with a last fragment.
pub send-frame :
    (lower : Bool) (s : Slip) (packet : List ℕ) (id : Eid)
    → s.is_open ≡ true
    → s.tx_msg ≡ []
    → send lower s packet id false ≡ (s, lower, to_lower (frame packet) id false ∷ [])
unfolding send
send-frame lower s packet id o e = rw (o, e, stuff-escape) (ground arith)
