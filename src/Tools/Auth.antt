-- ===== src/Tools/Auth.antt =====
-- pkg/tools/auth.go: the keys that sign requests. The lock that guards them makes each access one
-- step. SHA-256 is a parameter: a function from a text to the bytes of its digest.
use Prim.Native.String.{◌++◌ as str_append}
use chaosblade_box_agent.Prelude.{ℕ, String, Bool, List, str_eq}
use chaosblade_box_agent.Prelude.Strconv.{hex, base64}

-- `localAccessKey` and `localSecureKey`
pub record Keys : Type 0 where
  pub local_access_key : String
  pub local_secure_key : String

unfoldable pub get_access_key : Keys → String
get_access_key keys = keys.local_access_key

unfoldable pub get_secure_key : Keys → String
get_secure_key keys = keys.local_secure_key

module _ (sum256 : String → List ℕ) where
  -- `Sign`
  unfoldable pub sign : Keys → String → String
  sign keys sign_data = base64 (hex (sum256 (str_append sign_data keys.local_secure_key)))

  -- `Auth`
  unfoldable pub auth : Keys → String → String → Bool
  unfolding sign
  auth keys signature sign_data = str_eq (sign keys sign_data) signature
