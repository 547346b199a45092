-- ===== src/Push/Verify.antt =====
-- internal/push/verify.go: the opt-in check of a frame's signature. The hash with the RSA check is
-- a parameter: whether a signature is good for a key and a body.
use hstongapi4go.Common.{Bool, false, Option, none, some, if◌then◌else◌, replicate}
use hstongapi4go.Common.Bytes.{Bytes}
use hstongapi4go.Common.Text.{bytes_eq}
use hstongapi4go.Push.Frame.{Header, body_sha1_len}

pub data VerifyError : Type 0 where
  no_public_key missing_signature signature_mismatch : VerifyError

-- `Verifier`; a nil key is `none`.
pub record Verifier (K : Type 0) : Type 0 where
  pub key : Option K
  pub required : Bool

-- `NewVerifier`.
abbrev pub new_verifier : {K : Type 0} → Option K → Bool → Verifier K
new_verifier key required = record { key = key; required = required }

-- `Required` on a pointer that may be nil.
abbrev pub is_required : {K : Type 0} → Option (Verifier K) → Bool
is_required none = false
is_required (some v) = v.required

module _ {K : Type 0} (good : K → Bytes → Bytes → Bool) where
  unfoldable pub verify_by : Option K → Bytes → Bytes → Option VerifyError
  verify_by none sha1 body = some no_public_key
  verify_by (some key) sha1 body =
      if bytes_eq sha1 (replicate body_sha1_len 0)
      then some missing_signature
      else if good key body sha1
      then none
      else some signature_mismatch

  unfoldable pub verify : Verifier K → Header → Bytes → Option VerifyError
  unfolding verify_by
  verify v h body = verify_by v.key h.body_sha1 body

  -- `verifyFrame`: without a verifier nothing is checked.
  unfoldable pub verify_frame : Option (Verifier K) → Header → Bytes → Option VerifyError
  verify_frame none h body = none
  verify_frame (some v) h body = verify v h body
