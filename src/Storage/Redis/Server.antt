-- ===== src/Storage/Redis/Server.antt =====
-- redis.go: what the backend relies on in a server that is reached, and in the JSON encoders. Expiry
-- is left out: no key expires, neither between two commands of one call nor between calls, so this is
-- a server in the time before the first key runs out.
use cdevents_otel_bridge.Prelude.{
  ℕ, String, List, [], ◌∷◌, ◌++◌, Option, none, some, true, ◌==◌, ◌<>◌, ◌≡◌, ◌≢◌, ◌↔◌, ◌⊎◌, Memᴰ,
  if◌then◌else◌,
}
use cdevents_otel_bridge.Prelude.Int.{ℤ, pos, ltb_ℤ}
use cdevents_otel_bridge.Errors.{ok}
use cdevents_otel_bridge.Text.{has_prefix}
use cdevents_otel_bridge.Storage.Redis.{
  Command, set, s_add, expire, Client, Codec, escape_char, scan_batch_size,
}
use cdevents_otel_bridge.Storage.Memory.Lookups.{live}
use Prim.Native.Char.{code}
use Prim.Native.String.{[], ◌∷◌}

-- A record is encoded as a text, and comes back when that is decoded. So it does with encoding/json,
-- but for an event whose raw data is there and empty, which is left out.
abbrev pub Encodes : {A : Type 0} → Codec A → A → String → Type 0
Encodes codec a text = (codec.marshal a ≡ ok text) × (codec.unmarshal text ≡ ok a)

-- A text that no character of a pattern stands in.
abbrev pub IsLiteral : String → Type 0
IsLiteral [] = Unit
IsLiteral (c ∷ s) = (escape_char (code c) ≡ none) × IsLiteral s

-- A full iteration of SCAN from a cursor, and the keys that it returns, page by page.
pub data Iteration {S : Type 0} (client : Client S) (s : S) (pattern : String)
    : ℕ → List String → Type 0 where
  last :
      {cursor : ℕ} {keys : List String}
      → client.scan s live cursor pattern scan_batch_size ≡ ok (keys, 0)
      → Iteration client s pattern cursor keys
  more :
      {cursor next : ℕ} {keys rest : List String}
      → client.scan s live cursor pattern scan_batch_size ≡ ok (keys, next)
      → next ≢ 0
      → Iteration client s pattern next rest
      → Iteration client s pattern cursor (keys ++ rest)

pub record Server {S : Type 0} (client : Client S) : Type 0 where
  -- The text under a key, and the members of the set under a key.
  pub text : S → String → Option String
  pub members : S → String → List String
  -- What a command that is accepted does.
  pub after : S → Command → S
  pub get-text :
      (s : S) (key t : String) → text s key ≡ some t → client.get s live key ≡ ok (some t)
  pub get-missing :
      (s : S) (key : String)
      → text s key ≡ none
      → members s key ≡ []
      → client.get s live key ≡ ok none
  pub s_members-members :
      (s : S) (key : String) → text s key ≡ none → client.s_members s live key ≡ ok (members s key)
  pub text-set :
      (s : S) (key t j : String) (ttl : ℤ)
      → text (after s (set key t ttl)) j ≡ (if key == j then some t else text s j)
  pub members-set :
      (s : S) (key t j : String) (ttl : ℤ)
      → members (after s (set key t ttl)) j ≡ (if key == j then [] else members s j)
  pub text-s_add : (s : S) (key m j : String) → text (after s (s_add key m)) j ≡ text s j
  pub members-s_add_other :
      (s : S) (key m j : String) → key ≢ j → members (after s (s_add key m)) j ≡ members s j
  pub members-s_add :
      (s : S) (key m x : String)
      → text s key ≡ none
      → Memᴰ x (members (after s (s_add key m)) key) ↔ ((x ≡ m) ⊎ Memᴰ x (members s key))
  -- a time to live that is positive leaves the key for now
  pub text-expire :
      (s : S) (key j : String) (ttl : ℤ)
      → ltb_ℤ (pos 0) ttl ≡ true
      → text (after s (expire key ttl)) j ≡ text s j
  pub members-expire :
      (s : S) (key j : String) (ttl : ℤ)
      → ltb_ℤ (pos 0) ttl ≡ true
      → members (after s (expire key ttl)) j ≡ members s j
  -- An iteration comes to an end, and returns every key that matches and that is there throughout,
  -- perhaps more than once.
  pub scanned : S → String → List String
  pub scan-iterates : (s : S) (pattern : String) → Iteration client s pattern 0 (scanned s pattern)
  pub scan-complete :
      (s : S) (prefix key t : String)
      → IsLiteral prefix
      → has_prefix key prefix ≡ true
      → text s key ≡ some t
      → Memᴰ key (scanned s (prefix <> "*"))
  pub scan-sound :
      (s : S) (prefix key : String)
      → IsLiteral prefix
      → Memᴰ key (scanned s (prefix <> "*"))
      → has_prefix key prefix ≡ true

-- The commands of a transaction, one after the other.
abbrev pub after_all : {S : Type 0} → (S → Command → S) → S → List Command → S
after_all after s [] = s
after_all after s (c ∷ cs) = after_all after (after s c) cs

-- A command is accepted unless it adds to a set under a key that holds a text.
abbrev pub IsAccepted : {S : Type 0} → (S → String → Option String) → S → Command → Type 0
IsAccepted text s (set key t ttl) = Unit
IsAccepted text s (s_add key m) = text s key ≡ none
IsAccepted text s (expire key ttl) = Unit

abbrev pub AreAccepted :
    {S : Type 0} → (S → String → Option String) → (S → Command → S) → S → List Command → Type 0
AreAccepted text after s [] = Unit
AreAccepted text after s (c ∷ cs) = IsAccepted text s c × AreAccepted text after (after s c) cs

-- Commands that are accepted succeed.
pub record IsReached {S : Type 0} (client : Client S) (server : Server client) : Type 0 where
  pub run-after :
      (s : S) (c : Command)
      → IsAccepted server.text s c
      → client.run s live c ≡ (ok tt, server.after s c)
  pub exec-after :
      (s : S) (cs : List Command)
      → AreAccepted server.text server.after s cs
      → client.exec s live cs ≡ (ok tt, after_all server.after s cs)
