-- ===== src/Caster/Server/Altered.antt =====
-- A rover whose GGA header was altered on its way: `_handle_http` of src/caster.py with `parse_gga`
-- of src/nmea.py.
use babilcors.Prelude.{
  ℕ, ◌<◌, ◌≡◌, ◌≢◌, refl, ap, ◌∙◌, none, some, List, ◌∷◌, ◌++◌, All-append, arith,
}
use babilcors.Prelude.Dict.{string_eq}
use babilcors.Net.{is_empty}
use babilcors.Nmea.{xor_from}
use babilcors.Nmea.Sentences.{parse_gga}
use babilcors.Nmea.Checksum.{AreBytes, hex2, xor_from-lt}
use babilcors.Nmea.Fields.{changed-IsRefused}
use babilcors.Auth.Credentials.{IsUnspaced, strip-unspaced}
use babilcors.Caster.Server.{
  Config, Server, Request, Reply, accepted, admit, admit_found, admit_user, open_session, log_gga,
  read_gga_header, count_unauthorized,
}
use babilcors.Caster.Server.Changes.{Change, same, more, admit-Change, IsRefusal}
use babilcors.Caster.Server.Replies.{IsAccepted, admit-IsEntitled}

hex2-IsUnspaced : (v : ℕ) → v < 256 → IsUnspaced (42 ∷ hex2 v)
hex2-IsUnspaced v h = (refl, (ground arith, (ground arith, tt)))

-- A sentence of which one character was replaced after its checksum was made.
abbrev pub altered : List ℕ → List ℕ → ℕ → ℕ → List ℕ
altered s t a b = 36 ∷ ((s ++ b ∷ t) ++ 42 ∷ hex2 (xor_from 0 (s ++ a ∷ t)))

pub read_gga_header-altered :
    (c : Config) (r : Request) (s t : List ℕ) (a b : ℕ)
    → AreBytes s
    → AreBytes t
    → a < 256
    → b < 256
    → a ≢ b
    → r.gga_header ≡ some (altered s t a b)
    → read_gga_header c.numbers r.gga_header ≡ none
unfolding read_gga_header is_empty
read_gga_header-altered c r s t a b hs ht ha hb differ sent =
    let v = xor_from 0 (s ++ a ∷ t) in
    let hv =
      xor_from-lt 0 (s ++ a ∷ t) (omega arith) (All-append (λ x. x < 256) s (a ∷ t) hs (ha, ht)) in
    let bare = strip-unspaced 36 (s ++ b ∷ t) 42 (hex2 v) refl (hex2-IsUnspaced v hv) in
    let unread = changed-IsRefused c.numbers s t a b hs ht ha hb differ in
    ap (read_gga_header c.numbers) sent
    ∙ ap (λ l. log_gga c.numbers (parse_gga c.numbers l)) bare
    ∙ ap (log_gga c.numbers) unread.0
    ∙ (unfold log_gga in refl)

-- Without a readable header no hub changes, whatever the rest of the request.
admit-unread :
    (c : Config) (r : Request) (now : ℕ) (s : Server)
    → read_gga_header c.numbers r.gga_header ≡ none
    → (admit c r now s).0.mountpoints ≡ s.mountpoints
unfolding admit admit_found admit_user open_session count_unauthorized
admit-unread c r now s bad = ground (arith, bad)

change-refused :
    (c : Config) (r : Request) (s : Server) (p : Server × Reply)
    → Change c r s p
    → ¬ IsAccepted p.1
    → IsRefusal p.1 × (p.0.rover_total ≡ s.rover_total) × (p.0.rover_ip_counts ≡ s.rover_ip_counts)
change-refused c r s (s', a) (same total counts refused) barred = (refused, total, counts)
change-refused c r s (s', accepted id) (more _ _ _ _) barred = absurd (barred tt)

-- A GGA header, of characters below 256, of which one between the dollar and the star was
-- replaced after its checksum was made: whoever asks and whatever the state of the server, no
-- rover is accepted, no counter of rovers changes, and neither does any hub.
pub admit-altered :
    (c : Config) (r : Request) (now : ℕ) (sv : Server) (s t : List ℕ) (a b : ℕ)
    → AreBytes s
    → AreBytes t
    → a < 256
    → b < 256
    → a ≢ b
    → r.gga_header ≡ some (altered s t a b)
    → IsRefusal (admit c r now sv).1
      × ((admit c r now sv).0.rover_total ≡ sv.rover_total)
      × ((admit c r now sv).0.rover_ip_counts ≡ sv.rover_ip_counts)
      × ((admit c r now sv).0.mountpoints ≡ sv.mountpoints)
admit-altered c r now sv s t a b hs ht ha hb differ sent =
    let bad = read_gga_header-altered c r s t a b hs ht ha hb differ sent in
    let (refused, total, counts) =
      change-refused c r sv (admit c r now sv) (admit-Change c r now sv)
        (λ yes. (admit-IsEntitled c r now sv yes).1 bad) in
    (refused, total, counts, admit-unread c r now sv bad)
