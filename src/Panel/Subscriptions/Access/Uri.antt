-- ===== src/Panel/Subscriptions/Access/Uri.antt =====
-- buildVLESSRealityURI of services/panel-api/internal/storage/subscriptions.go, with what it uses of
-- net/url: Values.Encode, whose keys are in order, and URL.String.
use Prim.Native.Char.{Char, code}
use Prim.Native.String.{String, ◌∷◌}
use lenker_panel.Base.{
  ℕ, ◌+◌, ◌/◌, ◌%◌, Bool, true, false, ◌&&◌, ◌||◌, List, ℤ, if◌then◌else◌, ltb, leb, ◌==◌, append,
  decimal,
}

pub record SubscriptionAccessEndpoint : Type 0 where
  pub address : String
  pub port : ℤ
  pub network : String
  pub security : String
  pub sni : String
  pub public_key : String
  pub short_id : String
  pub fingerprint : String
  pub spider_x : String

pub record SubscriptionAccessClient : Type 0 where
  pub id : String
  pub email : String
  pub flow : String
  pub level : ℤ
  pub plan_id : String

-- the part of an address that a text is written in
pub data Part : Type 0 where
  host user query fragment : Part

-- the bytes of a character
unfoldable pub utf8 : Char → List ℕ
utf8 c =
    let n = code c in
    if ltb n 0x80
    then List.◌∷◌ n List.[]
    else if ltb n 0x800
    then List.◌∷◌ (0xc0 + n / 64) (List.◌∷◌ (0x80 + n % 64) List.[])
    else if ltb n 0x10000
    then List.◌∷◌ (0xe0 + n / 4096)
        (List.◌∷◌ (0x80 + n / 64 % 64) (List.◌∷◌ (0x80 + n % 64) List.[]))
    else List.◌∷◌ (0xf0 + n / 262144) (
        List.◌∷◌ (0x80 + n / 4096 % 64)
          (List.◌∷◌ (0x80 + n / 64 % 64) (List.◌∷◌ (0x80 + n % 64) List.[])))

abbrev has_code : String → ℕ → Bool
has_code String.[] n = false
has_code (c ∷ s) n = code c == n || has_code s n

abbrev is_alphanumeric : ℕ → Bool
is_alphanumeric n =
    (leb b'a' n && leb n b'z') || (leb b'A' n && leb n b'Z') || (leb b'0' n && leb n b'9')

-- the characters besides letters and digits that are written as they are
abbrev plain : Part → String
plain host = "-_.~!$&'()*+,;=:[]<>\""
plain user = "-_.~$&+,;="
plain query = "-_.~"
plain fragment = "-_.~$&+,/:;=?@!()*"

-- shouldEscape, negated
unfoldable pub is_plain : Part → ℕ → Bool
is_plain part n = is_alphanumeric n || has_code (plain part) n

unfoldable pub upper_hex : ℕ → Char
upper_hex n =
    if n == 0
    then "0"
    else if n == 1
    then "1"
    else if n == 2
    then "2"
    else if n == 3
    then "3"
    else if n == 4
    then "4"
    else if n == 5
    then "5"
    else if n == 6
    then "6"
    else if n == 7
    then "7"
    else if n == 8
    then "8"
    else if n == 9
    then "9"
    else if n == 10
    then "A"
    else if n == 11
    then "B"
    else if n == 12
    then "C"
    else if n == 13
    then "D"
    else if n == 14
    then "E"
    else "F"

unfoldable pub percent : List ℕ → String
unfolding upper_hex
percent List.[] = ""
percent (List.◌∷◌ b r) = "%" ∷ upper_hex (b / 16) ∷ upper_hex (b % 16) ∷ percent r

abbrev is_query : Part → Bool
is_query host = false
is_query user = false
is_query query = true
is_query fragment = false

-- escape
unfoldable pub escape : Part → String → String
unfolding is_plain utf8 percent
escape part String.[] = ""
escape part (c ∷ s) =
    let rest = escape part s in
    if is_plain part (code c)
    then c ∷ rest
    else if is_query part && code c == 32
    then "+" ∷ rest
    else append (percent (utf8 c)) rest

-- one value of url.Values, encoded
unfoldable pub parameter : (key value rest : String) → String
unfolding escape
parameter key value rest = append key (append "=" (append (escape query value) rest))

unfoldable pub raw_query :
    SubscriptionAccessEndpoint → SubscriptionAccessClient → (rest : String) → String
unfolding parameter
raw_query endpoint client rest =
    let network = parameter "&type" endpoint.network rest in
    let spider_x = parameter "&spx" endpoint.spider_x network in
    let sni = parameter "&sni" endpoint.sni spider_x in
    let short_id = parameter "&sid" endpoint.short_id sni in
    let security = parameter "&security" endpoint.security short_id in
    let public_key = parameter "&pbk" endpoint.public_key security in
    let fingerprint = parameter "&fp" endpoint.fingerprint public_key in
    parameter "encryption" "none" (parameter "&flow" client.flow fingerprint)

unfoldable pub build_vless_reality_uri :
    SubscriptionAccessEndpoint → SubscriptionAccessClient → (display_name : String) → String
unfolding escape decimal raw_query
build_vless_reality_uri endpoint client display_name =
    let address = append endpoint.address (append ":" (decimal endpoint.port)) in
    let fragment_text = append "#" (escape fragment display_name) in
    let after_host = append "?" (raw_query endpoint client fragment_text) in
    append "vless://"
      (append (escape user client.id) (append "@" (append (escape host address) after_host)))
