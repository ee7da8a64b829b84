-- ===== src/Base/Errors.antt =====
-- Go errors as values: errors.New, fmt.Errorf with %w, and the errors that the program looks for
-- with errors.Is and errors.As. Those of the libraries carry their own text.
use mathlib.Core.Bool.{Bool, true, false}
use mathlib.Core.Option.{Option, none, some}
use mathlib.Core.List.{◌++◌}
use Prim.Native.Nat.{ℕ}
use notation.Base.Tests.{if◌then◌else◌}
use notation.Base.Lists.{is_empty}
use notation.Base.Strings.{Text, codes}

pub data Fault : Type 0 where
  -- errors.New, and fmt.Errorf without %w
  new : Text → Fault
  -- fmt.Errorf("...%w", err): the text in front, and the error that is kept
  wrap : Text → Fault → Fault
  -- an error that is fs.ErrNotExist
  not_exist : Text → Fault
  -- auth.ErrCredentialsConfigNotSet
  credentials_config_not_set : Fault
  -- the credential helper's "credentials not found"
  credentials_not_found : Fault
  -- notationerrors.ErrorOCILayoutMissingReference
  oci_layout_missing_reference : Text → Fault
  -- notationerrors.ErrorReferrersAPINotSupported
  referrers_api_not_supported : Text → Fault
  -- notation.ErrorVerificationFailed
  verification_failed : Text → Fault
  -- notation.ErrorPushSignatureFailed
  push_signature_failed : Text → Fault
  -- errcode.ErrorResponse: the status code, the code of the errcode.Error in it, the text
  response : ℕ → Option Text → Text → Fault

-- err.Error()
unfoldable pub error_text : Fault → Text
error_text (new t) = t
error_text (wrap t e) = t ++ error_text e
error_text (not_exist t) = t
error_text credentials_config_not_set = codes "credentials store config was not set up"
error_text credentials_not_found = codes "credentials not found in native keychain"
error_text (oci_layout_missing_reference t) =
    if is_empty t then codes "reference is missing either digest or tag" else t
error_text (referrers_api_not_supported t) =
    if is_empty t then codes "referrers API not supported" else t
error_text (verification_failed t) = t
error_text (push_signature_failed t) = t
error_text (response status c t) = t

-- errors.Is(err, fs.ErrNotExist)
unfoldable pub is_not_exist : Fault → Bool
is_not_exist (not_exist t) = true
is_not_exist (wrap t e) = is_not_exist e
is_not_exist e = false

-- errors.Is(err, ErrCredentialsConfigNotSet)
unfoldable pub is_config_not_set : Fault → Bool
is_config_not_set credentials_config_not_set = true
is_config_not_set (wrap t e) = is_config_not_set e
is_config_not_set e = false

-- credentials.IsErrCredentialsNotFound(err), which does not unwrap
unfoldable pub is_credentials_not_found : Fault → Bool
is_credentials_not_found credentials_not_found = true
is_credentials_not_found e = false

-- errors.As(err, &errorVerificationFailed)
unfoldable pub as_verification_failed : Fault → Bool
as_verification_failed (verification_failed t) = true
as_verification_failed (wrap t e) = as_verification_failed e
as_verification_failed e = false

-- errors.As(err, &errorPushSignatureFailed)
unfoldable pub as_push_signature_failed : Fault → Bool
as_push_signature_failed (push_signature_failed t) = true
as_push_signature_failed (wrap t e) = as_push_signature_failed e
as_push_signature_failed e = false

-- errors.As(err, &errResp), with the status code
unfoldable pub as_response : Fault → Option ℕ
as_response (response status c t) = some status
as_response (wrap t e) = as_response e
as_response e = none

-- errors.As(err, &ec), with the code of the errcode.Error
unfoldable pub as_code : Fault → Option Text
as_code (response status c t) = c
as_code (wrap t e) = as_code e
as_code e = none
