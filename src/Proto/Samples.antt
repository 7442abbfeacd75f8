-- ===== src/Proto/Samples.antt =====
-- Codecs for tests: a structure is a fixed number of bytes, and its text has one character more than
-- each byte.
use freak.Prelude.{ℕ, zero, suc, ◌≡◌, ◌<◌, refl, ap, ◌∙◌, List, [], ◌∷◌, ◌++◌, length, some, arith}
use freak.Proto.{Codec, IsCodec, strlen}
use freak.Proto.Types.{FrameCfg, FrameCap, StreamCfg, StreamCap, OsdCfg, OsdCap, SvrCfg, SvrCap}

abbrev pub up : List ℕ → List ℕ
up [] = []
up (x ∷ xs) = suc x ∷ up xs

abbrev pub down : List ℕ → List ℕ
down [] = []
down (zero ∷ xs) = zero ∷ down xs
down (suc x ∷ xs) = x ∷ down xs

down-up : (xs : List ℕ) → down (up xs) ≡ xs
down-up [] = refl
down-up (x ∷ xs) = ap (λ ys. x ∷ ys) (down-up xs)

length-up : (xs : List ℕ) → length (up xs) ≡ length xs
length-up [] = refl
length-up (x ∷ xs) = ap suc (length-up xs)

strlen-up : (xs : List ℕ) → strlen (up xs ++ 0 ∷ []) ≡ some (length (up xs))
unfolding strlen
strlen-up [] = refl
strlen-up (x ∷ xs) = rw (strlen-up xs) refl

module _ {T : Type 0} (n : ℕ) (fields : T → List ℕ) (of_fields : List ℕ → T) where
  abbrev pub codec : Codec T
  codec = record {
    size = n;
    image = fields;
    of_image = of_fields;
    text = λ t. up (fields t);
    of_text = λ bytes. of_fields (down bytes);
  }

  abbrev pub Fields : T → Type 0
  Fields t = (length (fields t) ≡ n) × (of_fields (fields t) ≡ t)

  pub codec-IsCodec : n < 2008 → IsCodec codec Fields
  codec-IsCodec h = record {
    image_size = λ t f. f.0;
    of_image-image = λ t f. f.1;
    text_end = λ t f. strlen-up (fields t);
    of_text-text = λ t f. ap of_fields (down-up (fields t)) ∙ f.1;
    size_fits = omega (arith, h);
    text_fits = λ t f. omega (arith, length-up (fields t), f.0);
  }

abbrev first : List ℕ → ℕ
first [] = 0
first (x ∷ xs) = x

abbrev pub number : Codec ℕ
number = codec 1 (λ n. n ∷ []) first

abbrev frame_of : List ℕ → FrameCfg
frame_of (a ∷ b ∷ c ∷ d ∷ e ∷ f ∷ xs) = record {
  id = a;
  enable = b;
  format = c;
  width = d;
  height = e;
  fps = f;
}
frame_of _ = record { id = 0; enable = 0; format = 0; width = 0; height = 0; fps = 0 }

abbrev frame_fields : FrameCfg → List ℕ
frame_fields t = t.id ∷ t.enable ∷ t.format ∷ t.width ∷ t.height ∷ t.fps ∷ []

abbrev pub frame_codec : Codec FrameCfg
frame_codec = codec 6 frame_fields frame_of

abbrev pub FrameFields : FrameCfg → Type 0
FrameFields = Fields 6 frame_fields frame_of

pub frame_codec-IsCodec : IsCodec frame_codec FrameFields
frame_codec-IsCodec = codec-IsCodec 6 frame_fields frame_of (omega arith)

abbrev stream_of : List ℕ → StreamCfg
stream_of (a ∷ b ∷ c ∷ d ∷ e ∷ f ∷ xs) = record {
  id = a;
  enable = b;
  encode = c;
  width = d;
  height = e;
  fps = f;
}
stream_of _ = record { id = 0; enable = 0; encode = 0; width = 0; height = 0; fps = 0 }

abbrev pub stream_codec : Codec StreamCfg
stream_codec = codec 6 (λ t. t.id ∷ t.enable ∷ t.encode ∷ t.width ∷ t.height ∷ t.fps ∷ []) stream_of

-- An address of one byte.
abbrev svr_of : List ℕ → SvrCfg
svr_of (a ∷ b ∷ c ∷ d ∷ xs) = record { id = a; enable = b; ip = c ∷ []; port = d }
svr_of _ = record { id = 0; enable = 0; ip = []; port = 0 }

abbrev svr_fields : SvrCfg → List ℕ
svr_fields t = t.id ∷ t.enable ∷ (t.ip ++ t.port ∷ [])

abbrev pub svr_codec : Codec SvrCfg
svr_codec = codec 4 svr_fields svr_of

abbrev pub SvrFields : SvrCfg → Type 0
SvrFields = Fields 4 svr_fields svr_of

pub svr_codec-IsCodec : IsCodec svr_codec SvrFields
svr_codec-IsCodec = codec-IsCodec 4 svr_fields svr_of (omega arith)

abbrev cap_of : List ℕ → FrameCap
cap_of (a ∷ b ∷ c ∷ xs) = record { id = a; chn = b; subchn = c }
cap_of _ = record { id = 0; chn = 0; subchn = 0 }

abbrev pub frame_cap_codec : Codec FrameCap
frame_cap_codec = codec 3 (λ t. t.id ∷ t.chn ∷ t.subchn ∷ []) cap_of

abbrev stream_cap_of : List ℕ → StreamCap
stream_cap_of (a ∷ b ∷ c ∷ xs) = record { id = a; chn = b; subchn = c }
stream_cap_of _ = record { id = 0; chn = 0; subchn = 0 }

abbrev pub stream_cap_codec : Codec StreamCap
stream_cap_codec = codec 3 (λ t. t.id ∷ t.chn ∷ t.subchn ∷ []) stream_cap_of

abbrev svr_cap_of : List ℕ → SvrCap
svr_cap_of (a ∷ b ∷ xs) = record { id = a; dummy = b }
svr_cap_of _ = record { id = 0; dummy = 0 }

abbrev pub svr_cap_codec : Codec SvrCap
svr_cap_codec = codec 2 (λ t. t.id ∷ t.dummy ∷ []) svr_cap_of

abbrev pub CapFields : FrameCap → Type 0
CapFields = Fields 3 (λ t. t.id ∷ t.chn ∷ t.subchn ∷ []) cap_of

pub frame_cap_codec-IsCodec : IsCodec frame_cap_codec CapFields
frame_cap_codec-IsCodec = codec-IsCodec 3 (λ t. t.id ∷ t.chn ∷ t.subchn ∷ []) cap_of (omega arith)

abbrev stream_fields : StreamCfg → List ℕ
stream_fields t = t.id ∷ t.enable ∷ t.encode ∷ t.width ∷ t.height ∷ t.fps ∷ []

abbrev pub StreamFields : StreamCfg → Type 0
StreamFields = Fields 6 stream_fields stream_of

pub stream_codec-IsCodec : IsCodec stream_codec StreamFields
stream_codec-IsCodec = codec-IsCodec 6 stream_fields stream_of (omega arith)

abbrev pub NumFields : ℕ → Type 0
NumFields = Fields 1 (λ n. n ∷ []) first

pub number-IsCodec : IsCodec number NumFields
number-IsCodec = codec-IsCodec 1 (λ n. n ∷ []) first (omega arith)

-- An overlay without its union.
abbrev osd_of : List ℕ → OsdCfg
osd_of (a ∷ b ∷ xs) = record { id = a; enable = b; info = [] }
osd_of _ = record { id = 0; enable = 0; info = [] }

abbrev osd_fields : OsdCfg → List ℕ
osd_fields t = t.id ∷ t.enable ∷ []

abbrev pub osd_codec : Codec OsdCfg
osd_codec = codec 2 osd_fields osd_of

abbrev pub OsdFields : OsdCfg → Type 0
OsdFields = Fields 2 osd_fields osd_of

pub osd_codec-IsCodec : IsCodec osd_codec OsdFields
osd_codec-IsCodec = codec-IsCodec 2 osd_fields osd_of (omega arith)

abbrev osd_cap_of : List ℕ → OsdCap
osd_cap_of (a ∷ b ∷ c ∷ xs) = record { id = a; chn = b; subchn = c }
osd_cap_of _ = record { id = 0; chn = 0; subchn = 0 }

abbrev pub osd_cap_codec : Codec OsdCap
osd_cap_codec = codec 3 (λ t. t.id ∷ t.chn ∷ t.subchn ∷ []) osd_cap_of
