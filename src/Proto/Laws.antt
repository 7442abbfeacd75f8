-- ===== src/Proto/Laws.antt =====
-- Data that goes into a message comes out of it.
use freak.Prelude.{
  ℕ, ◌≡◌, [], ◌∷◌, ◌<◌, ◌%◌, ◌^◌, some, length, length-append, take-append, take_all, arith,
}
use freak.Proto.{Codec, IsCodec, encode, decode}

module _ {T : Type 0} (c : Codec T) {Fits : T → Type 0} (l : IsCodec c Fits) (t : T)
    (fits : Fits t) where
  encode_fits : (format : ℕ) → length (encode c format t) < 2 ^ 16
  unfolding encode
  encode_fits format = ground (
    arith,
    l.image_size t fits,
    l.size_fits,
    l.text_fits t fits,
    length-append (c.text t) (0 ∷ []),
  )

  -- What one end of a message encodes, the other end decodes, in either format, with the 16-bit
  -- size that the header carries. The codec gives back the values that fit the C structure.
  pub decode-encode :
      (format : ℕ)
      → decode c format (length (encode c format t) % 2 ^ 16) (encode c format t) ≡ some t
  unfolding decode encode
  decode-encode format = ground (
    arith,
    encode_fits format,
    l.image_size t fits,
    l.of_image-image t fits,
    l.text_end t fits,
    l.of_text-text t fits,
    l.text_fits t fits,
    l.size_fits,
    length-append (c.text t) (0 ∷ []),
    take-append (length (c.text t)) (c.text t) (0 ∷ []),
    take_all c.size (c.image t),
  )
