-- ===== src/Identity/Types.antt =====
-- What is signed, by crates/proscenium-types/src/types.rs and delegation.rs, and the results of
-- verifying it.
use proscenium.Common.{ℕ, String, Bool, true, false, Option, none, some, List}

pub data Visibility : Type 0 where
  public_profile listed_profile private_profile : Visibility

pub record Post : Type 0 where
  pub id : ℕ
  pub author : ℕ
  pub content : List ℕ
  pub timestamp : ℕ
  pub media : List ℕ
  pub reply_to : Option ℕ
  pub reply_to_author : Option ℕ
  pub quote_of : Option ℕ
  pub quote_of_author : Option ℕ
  pub signature : List ℕ

-- The only kind of interaction is a like.
pub record Interaction : Type 0 where
  pub id : ℕ
  pub author : ℕ
  pub target_post_id : ℕ
  pub target_author : ℕ
  pub timestamp : ℕ
  pub signature : List ℕ

pub record Profile : Type 0 where
  pub display_name : List ℕ
  pub bio : List ℕ
  pub avatar_hash : Option ℕ
  pub avatar_ticket : Option ℕ
  pub visibility : Visibility
  pub signature : List ℕ

pub record SigningKeyDelegation : Type 0 where
  pub master_pubkey : ℕ
  pub signing_pubkey : ℕ
  pub key_index : ℕ
  pub dm_pubkey : ℕ
  pub dm_key_index : ℕ
  pub issued_at : ℕ
  pub signature : List ℕ

pub record SigningKeyRotation : Type 0 where
  pub master_pubkey : ℕ
  pub old_signing_pubkey : ℕ
  pub new_signing_pubkey : ℕ
  pub new_key_index : ℕ
  pub timestamp : ℕ
  pub signature : List ℕ
  pub new_delegation : SigningKeyDelegation

pub record DeviceEntry : Type 0 where
  pub node_id : ℕ
  pub device_name : ℕ
  pub is_primary : Bool
  pub added_at : ℕ

pub record LinkedDevicesAnnouncement : Type 0 where
  pub master_pubkey : ℕ
  pub delegation : SigningKeyDelegation
  pub devices : List DeviceEntry
  pub version : ℕ
  pub timestamp : ℕ
  pub signature : List ℕ

-- A value inside `serde_json::json!`.
pub data Value : Type 0 where
  name number : ℕ → Value
  word : String → Value
  text : List ℕ → Value
  names : List ℕ → Value
  optional : Option ℕ → Value
  visible : Visibility → Value
  device_list : List DeviceEntry → Value

pub data VerifyError : Type 0 where
  bad_length bad_hex invalid_key verification_failed mismatch : VerifyError

pub data Result (A : Type 0) : Type 0 where
  ok : A → Result A
  err : VerifyError → Result A

infixl 5 ◌>>=◌ ◌>>◌
abbrev pub ◌>>=◌ : {A B : Type 0} → Result A → (A → Result B) → Result B
ok a >>= f = f a
err e >>= f = err e

abbrev pub ◌>>◌ : {A B : Type 0} → Result A → Result B → Result B
ok a >> r = r
err e >> r = err e

abbrev pub or_err : {A : Type 0} → Option A → VerifyError → Result A
or_err none e = err e
or_err (some a) e = ok a

-- `if test { return Err(e) }`, with the test negated.
abbrev pub ensure : Bool → VerifyError → Result (Unit {0})
ensure true e = ok tt
ensure false e = err e
