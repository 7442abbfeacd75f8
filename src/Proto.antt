-- ===== src/Proto.antt =====
-- The messages of mod/proto: the header of mod/proto/jsonb/proto_hdr.h, the macros of
-- mod/proto/inc/proto.h that fill and read a message, and the request that every function of
-- mod/proto/interface makes. A C `int` is its bit pattern.
pub mod Laws
pub mod Results
pub mod Types
pub mod Clients
pub mod Samples
mod Tests
use freak.Prelude.{
  ℕ, zero, suc, ◌+◌, ◌%◌, ◌^◌, ◌≡◌, ◌≤◌, ◌<◌, List, [], ◌∷◌, ◌++◌, Bool, true, false, ◌&&◌, Option,
  none, some, length, take, ◌==◌, if◌then◌else◌,
}

-- `proto_header_t`; `body` is the memory from `data` on.
pub record Packet : Type 0 where
  pub version : ℕ
  pub ts : ℕ
  pub chn : ℕ
  pub key : ℕ
  pub action : ℕ
  pub errcode : ℕ
  pub format : ℕ
  pub size : ℕ
  pub body : List ℕ

-- `proto_action_e` and `proto_format_e`
abbrev pub action_num : ℕ
action_num = 0

abbrev pub action_cap : ℕ
action_cap = 1

abbrev pub action_get : ℕ
action_get = 2

abbrev pub action_set : ℕ
action_set = 3

abbrev pub action_tgr : ℕ
action_tgr = 4

abbrev pub format_structe : ℕ
format_structe = 0

abbrev pub format_json : ℕ
format_json = 1

-- `proto_key_e`
abbrev pub bsp_key_dummy : ℕ
bsp_key_dummy = 0

abbrev pub vsf_key_frame : ℕ
vsf_key_frame = 1

abbrev pub vsf_key_stream : ℕ
vsf_key_stream = 2

abbrev pub vsf_key_osd : ℕ
vsf_key_osd = 3

abbrev pub rtsp_key_svr : ℕ
rtsp_key_svr = 4

abbrev pub web_key_svr : ℕ
web_key_svr = 5

abbrev pub app_key_alg : ℕ
app_key_alg = 6

abbrev pub key_max : ℕ
key_max = 7

-- Aborts, failed assertions and faults are `none`.
infixl 5 ◌>>=◌ ◌>>◌
abbrev pub ◌>>=◌ : {A B : Type 0} → Option A → (A → Option B) → Option B
none >>= f = none
some a >>= f = f a

abbrev pub ◌>>◌ : {B : Type 0} → Option (Unit {0}) → Option B → Option B
m >> k = m >>= λ _. k

abbrev pub check : Bool → Option (Unit {0})
check true = some tt
check false = none

-- `strlen`, or a read past the memory.
unfoldable pub strlen : List ℕ → Option ℕ
strlen [] = none
strlen (zero ∷ cs) = some 0
strlen (suc c ∷ cs) = strlen cs >>= λ n. some (suc n)

-- What the code takes from elsewhere for a structure: its bytes as `memcpy` sees them, and the text
-- that the generated `jsonb_opt_…` function and cJSON make of it and read again.
pub record Codec (T : Type 0) : Type 0 where
  pub size : ℕ
  pub image : T → List ℕ
  pub of_image : List ℕ → T
  pub text : T → List ℕ
  pub of_text : List ℕ → T

-- The documented behaviour of both, for the values that the C structure has, `Fits`: a structure has its `sizeof` bytes, which give it back; the text
-- is a C string that gives it back; and both fit the 2008 bytes of a message behind its header.
pub record IsCodec {T : Type 0} (c : Codec T) (Fits : T → Type 0) : Type 0 where
  pub image_size : (t : T) → Fits t → length (c.image t) ≡ c.size
  pub of_image-image : (t : T) → Fits t → c.of_image (c.image t) ≡ t
  pub text_end : (t : T) → Fits t → strlen (c.text t ++ 0 ∷ []) ≡ some (length (c.text t))
  pub of_text-text : (t : T) → Fits t → c.of_text (c.text t) ≡ t
  pub size_fits : c.size ≤ 2008
  pub text_fits : (t : T) → Fits t → length (c.text t) < 2008

module _ {T : Type 0} (c : Codec T) where
  -- `proto_client_data_pre` and `proto_server_data_post`
  unfoldable pub encode : ℕ → T → List ℕ
  encode format t = if format == format_json then c.text t ++ 0 ∷ [] else c.image t

  -- `proto_client_data_post` and `proto_server_data_pre`
  unfoldable pub decode : ℕ → ℕ → List ℕ → Option T
  decode format isize memory =
      if format == format_json
      then (strlen memory >>= λ n. check (isize == n + 1) >> some (c.of_text (take n memory)))
      else (check (isize == c.size) >> some (c.of_image (take isize memory)))

-- `proto_package_fill_header`, at the time `now`.
unfoldable pub fill_header : ℕ → ℕ → ℕ → ℕ → ℕ → List ℕ → ℕ → Packet
fill_header chn key action format size body now = record {
  version = 1;
  ts = now;
  chn = chn % 256;
  key = key;
  action = action;
  errcode = 0;
  format = format;
  size = size % 2 ^ 16;
  body = body;
}

-- `proto_package_size`: `sizeof(proto_header_t)` is 40.
pub package_size : Packet → ℕ
package_size p = p.size + 40

-- `nnm_req_exchange` with the process that serves the messages, whose state is `S`.
abbrev pub Exchange : Type 0 → Type 0
Exchange S = Packet → S → Option (Packet × S)

-- The function that mod/proto/interface repeats for each call: make the message, exchange it, check
-- the key and the error code of the answer and read its data.
unfoldable pub request :
    {S T : Type 0} → Codec T → Exchange S → ℕ → ℕ → ℕ → ℕ → ℕ → T → S → Option (T × S)
unfolding fill_header
request c exchange key action chn format now t s = do
  let body = encode c format t
  (obuf, s') ← exchange (fill_header chn key action format (length body) body now) s
  check (obuf.key == key)
  check (obuf.errcode == 0)
  t' ← decode c format obuf.size obuf.body
  some (t', s')
