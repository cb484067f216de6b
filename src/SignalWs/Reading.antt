-- ===== src/SignalWs/Reading.antt =====
-- How a server reads the login of an upgrade request of src/manager/signal_ws.rs.
use sigchat.Base.{
  ℕ, ◌≡◌, refl, ap, ◌∙◌, List, [], ◌∷◌, ◌++◌, Option, none, some, ◌==◌, if◌then◌else◌, drop, All,
  arith,
}
use sigchat.Text.{Bytes, codes, bytes_eq, Lacks}
use sigchat.Text.Decimal.{show, IsDigit, All-show}
use sigchat.SignalWs.{Sockets, Upgrade, upgrade, credentials}

-- How a server reads a login: the value of the first Authorization header, behind "Basic ", decoded and
-- split at its first colon.
unfoldable pub header : Bytes → List (Bytes × Bytes) → Option Bytes
header name [] = none
header name ((n, value) ∷ headers) =
    let rest = header name headers in if bytes_eq n name then some value else rest

abbrev pub before_colon : ℕ → Option (Bytes × Bytes) → Option (Bytes × Bytes)
before_colon c none = none
before_colon c (some (name, password)) = some (c ∷ name, password)

unfoldable pub split_login : Bytes → Option (Bytes × Bytes)
split_login [] = none
split_login (c ∷ s) =
    let rest = split_login s in if c == b':' then some ([], s) else before_colon c rest

abbrev split_decoded : Option Bytes → Option (Bytes × Bytes)
split_decoded none = none
split_decoded (some b) = split_login b

abbrev decoded_login : (Bytes → Option Bytes) → Option Bytes → Option (Bytes × Bytes)
decoded_login decode none = none
decoded_login decode (some value) = split_decoded (decode (drop 6 value))

unfoldable pub login_of : (Bytes → Option Bytes) → Upgrade → Option (Bytes × Bytes)
login_of decode u = decoded_login decode (header (codes "Authorization") u.headers)

split_login-append :
    (name password : Bytes)
    → Lacks b':' name
    → split_login (name ++ codes ":" ++ password) ≡ some (name, password)
unfolding split_login
split_login-append [] password h = refl
split_login-append (c ∷ name) password (hc, hs) =
    ground (arith, split_login-append name password hs)

Lacks-append : (s t : Bytes) → Lacks b':' s → Lacks b':' t → Lacks b':' (s ++ t)
Lacks-append [] t hs ht = ht
Lacks-append (c ∷ s) t (hc, hs) ht = (hc, Lacks-append s t hs ht)

digits-Lacks : (s : Bytes) → All IsDigit s → Lacks b':' s
digits-Lacks [] h = tt
digits-Lacks (c ∷ s) (hc, hs) = (λ e. omega (arith, hc, e), digits-Lacks s hs)

module _ (o : Sockets) where
  -- A login is read back from the request that carries it.
  pub login_of-upgrade :
      (decode : Bytes → Option Bytes) (url : o.Url) (host key aci_service_id : Bytes)
      (device_id : ℕ) (password : Bytes)
      → ((b : Bytes) → decode (o.encode b) ≡ some b)
      → Lacks b':' aci_service_id
      → login_of decode
          (upgrade o url host key (some (credentials o aci_service_id device_id password)))
        ≡ some (aci_service_id ++ codes "." ++ show device_id, password)
  unfolding login_of header upgrade bytes_eq credentials
  login_of-upgrade decode url host key aci_service_id device_id password back lacks =
      let login = aci_service_id ++ codes "." ++ show device_id in
      let plain : Lacks b':' login =
        Lacks-append (aci_service_id ++ codes ".") (show device_id)
          (Lacks-append aci_service_id (codes ".") lacks (omega arith, tt))
          (digits-Lacks (show device_id) (All-show device_id)) in
      ap split_decoded (back (login ++ codes ":" ++ password))
      ∙ split_login-append login password plain

  login_of-none :
      (decode : Bytes → Option Bytes) (url : o.Url) (host key : Bytes)
      → login_of decode (upgrade o url host key none) ≡ none
  unfolding login_of header upgrade bytes_eq
  login_of-none decode url host key = refl
