-- ===== src/Caster/Server/Limits.antt =====
-- The counters of rovers in `_handle_http` of src/caster.py: whom they count, and the limits.
use babilcors.Prelude.{
  ℕ, ◌+◌, ◌-◌, ◌≤◌, ◌<◌, ◌≡◌, refl, some-injective, ap, ◌∙◌, inl, inr, Bool, true, false, Option,
  none, some, String, List, [], ◌∷◌, ◌++◌, ◌==◌, length, length-append, if◌then◌else◌, or_else,
  arith, Bool-cases,
}
use mathlib.Core.Option.{none-ne-some}
use babilcors.Prelude.Int.{ℤ, pos_part}
use babilcors.Prelude.Dict.{string_eq, Dict, lookup, insert, lookup-insert, beq_refl}
use babilcors.Caster.Server.Changes.{count_of, Change, same, more, admit-Change}
use babilcors.Caster.Server.{
  Config, Server, Request, Reply, forbidden, unauthorized, fails, accepted, admit, release,
  end_connection, at_limit,
}

-- A rover's connection after its admission.
pub record Live : Type 0 where
  pub ip : String
  pub mountpoint : String
  pub id : ℕ

-- The rovers that are connected, and those whose handler was left without a release.
pub record World : Type 0 where
  pub server : Server
  pub live : List Live
  pub lost : List Live

pub data Event : Type 0 where
  asks : Request → ℕ → Event
  ends : ℕ → Bool → Event

find : ℕ → List Live → Option Live
find i [] = none
find i (v ∷ vs) = if v.id == i then some v else find i vs

delete : ℕ → List Live → List Live
delete i [] = []
delete i (v ∷ vs) = let rest = delete i vs in if v.id == i then vs else v ∷ rest

after_reply : Request → World → Server × Reply → World
after_reply r w (s, accepted id) = record w {
  server = s;
  live = w.live ++ record { ip = r.client_ip; mountpoint = r.mountpoint; id = id } ∷ [];
}
after_reply r w (s, forbidden) = record w { server = s }
after_reply r w (s, unauthorized) = record w { server = s }
after_reply r w (s, fails) = record w { server = s }

after_end : ℕ → Bool → World → Option Live → World
after_end i answered w none = w
after_end i answered w (some v) = record {
  server = end_connection answered v.mountpoint v.ip i w.server;
  live = delete i w.live;
  lost = if answered then w.lost else v ∷ w.lost;
}

pub step : Config → Event → World → World
step c (asks r now) w = after_reply r w (admit c r now w.server)
step c (ends i answered) w = after_end i answered w (find i w.live)

pub run : Config → List Event → World → World
run c [] w = w
run c (e ∷ es) w = run c es (step c e w)

abbrev pub connected : String → List Live → ℕ
connected ip [] = 0
connected ip (v ∷ vs) = (if string_eq.beq v.ip ip then 1 else 0) + connected ip vs

pub record IsCounted (w : World) : Type 0 where
  pub total : w.server.rover_total ≡ length w.live + length w.lost
  pub per_ip : (ip : String) → count_of ip w.server ≡ connected ip w.live + connected ip w.lost

-- A limit of 0 or less is none.
pub record IsWithin (c : Config) (s : Server) : Type 0 where
  pub total : 0 < pos_part c.max_rovers_total → s.rover_total ≤ pos_part c.max_rovers_total
  pub per_ip :
      (ip : String)
      → 0 < pos_part c.max_rovers_per_ip
      → count_of ip s ≤ pos_part c.max_rovers_per_ip

delete-count :
    (i : ℕ) (v : Live) (vs : List Live)
    → find i vs ≡ some v
    → (length vs ≡ length (delete i vs) + 1)
      × ((ip : String)
          → connected ip vs ≡ connected ip (delete i vs) + (if string_eq.beq v.ip ip then 1 else 0))
unfolding find delete
delete-count i v [] e = absurd (none-ne-some v e)
delete-count i v (u ∷ vs) e = elim (Bool-cases (u.id == i)) [
  | inl here ↦
      let same_one : u ≡ v = some-injective u v (rw here at e) in
      rw here (
        omega arith,
        λ ip.
            omega
              (arith, ap {B = ℕ} (λ (w : Live). if string_eq.beq w.ip ip then 1 else 0) same_one),
      )
  | inr later ↦
      let (len, count) = delete-count i v vs (rw later at e) in
      rw later (omega (arith, len), λ ip. omega (arith, count ip))
]

release-count :
    (m ip j : String) (id : ℕ) (s : Server)
    → 0 < count_of ip s
    → count_of j (release m ip id s) + (if string_eq.beq ip j then 1 else 0) ≡ count_of j s
unfolding release
release-count m ip j id s pos = ground (
  arith,
  lookup-insert ip j (or_else (lookup ip s.rover_ip_counts) 1 - 1) s.rover_ip_counts,
  string_eq.beq_iff ip j,
)

connected-append :
    (j : String) (vs : List Live) (v : Live)
    → connected j (vs ++ v ∷ []) ≡ connected j vs + (if string_eq.beq v.ip j then 1 else 0)
connected-append j [] v = omega arith
connected-append j (u ∷ vs) v = omega (arith, connected-append j vs v)

more-count :
    (ip j : String) (d d' : Dict String ℕ)
    → d' ≡ insert ip (or_else (lookup ip d) 0 + 1) d
    → or_else (lookup j d') 0 ≡ or_else (lookup j d) 0 + (if string_eq.beq ip j then 1 else 0)
more-count ip j d d' e =
    rw (e, lookup-insert ip j (or_else (lookup ip d) 0 + 1) d)
      (ground (arith, string_eq.beq_iff ip j))

abbrev Holds : Config → World → Type 0
Holds c w = IsCounted w × IsWithin c w.server

kept-Holds :
    (c : Config) (s : Server) (w : World)
    → s.rover_total ≡ w.server.rover_total
    → s.rover_ip_counts ≡ w.server.rover_ip_counts
    → Holds c w
    → Holds c (record w { server = s })
kept-Holds c s w t e (k, l) =
    let same_count : (ip : String) → count_of ip s ≡ count_of ip w.server =
      λ ip. ap (λ d. or_else (lookup ip d) 0) e in
    (
      record { total = t ∙ k.total; per_ip = λ ip. same_count ip ∙ k.per_ip ip },
      record {
        total = λ on. omega (arith, t, l.total on);
        per_ip = λ ip on. omega (arith, same_count ip, l.per_ip ip on);
      },
    )

under_limit : (m : ℤ) (n : ℕ) → at_limit m n ≡ false → 0 < pos_part m → n + 1 ≤ pos_part m
unfolding at_limit
under_limit m n f on = ground arith

more-Holds :
    (c : Config) (r : Request) (id : ℕ) (s : Server) (w : World)
    → at_limit c.max_rovers_total w.server.rover_total ≡ false
    → at_limit c.max_rovers_per_ip (count_of r.client_ip w.server) ≡ false
    → s.rover_total ≡ w.server.rover_total + 1
    → s.rover_ip_counts
      ≡ insert r.client_ip (count_of r.client_ip w.server + 1) w.server.rover_ip_counts
    → Holds c w
    → Holds c (after_reply r w (s, accepted id))
unfolding after_reply
more-Holds c r id s w f f' t e (k, l) =
    let v : Live = record { ip = r.client_ip; mountpoint = r.mountpoint; id = id } in
    let one_more : (j : String)
        → count_of j s ≡ count_of j w.server + (if string_eq.beq r.client_ip j then 1 else 0) =
      λ j. more-count r.client_ip j w.server.rover_ip_counts s.rover_ip_counts e in
    (
      record {
        total = omega (arith, t, k.total, length-append w.live (v ∷ []));
        per_ip = λ j. omega (arith, one_more j, k.per_ip j, connected-append j w.live v);
      },
      record {
        total = λ on. omega (arith, t, under_limit c.max_rovers_total w.server.rover_total f on);
        per_ip = λ j on. ground (
          arith,
          one_more j,
          l.per_ip j on,
          string_eq.beq_iff r.client_ip j,
          under_limit c.max_rovers_per_ip (count_of r.client_ip w.server) f' on,
        );
      },
    )

asks-Holds :
    (c : Config) (r : Request) (w : World) (p : Server × Reply)
    → Change c r w.server p
    → Holds c w
    → Holds c (after_reply r w p)
unfolding after_reply
asks-Holds c r w (s, forbidden) (same t e why) h = kept-Holds c s w t e h
asks-Holds c r w (s, unauthorized) (same t e why) h = kept-Holds c s w t e h
asks-Holds c r w (s, fails) (same t e why) h = kept-Holds c s w t e h
asks-Holds c r w (s, accepted id) (same t e why) h = absurd why
asks-Holds c r w (s, accepted id) (more f f' t e) h = more-Holds c r id s w f f' t e h

self_counts : (ip : String) → 0 < (if string_eq.beq ip ip then 1 else 0)
self_counts ip = rw (beq_refl ip) (omega arith)

ends-Holds :
    (c : Config) (i : ℕ) (answered : Bool) (w : World) (o : Option Live)
    → find i w.live ≡ o
    → Holds c w
    → Holds c (after_end i answered w o)
unfolding after_end end_connection
ends-Holds c i answered w none e h = h
ends-Holds c i false w (some v) e (k, l) =
    let (len, one) = delete-count i v w.live e in
    (
      record {
        total = omega (arith, len, k.total);
        per_ip = λ j. omega (arith, one j, k.per_ip j);
      },
      l,
    )
ends-Holds c i true w (some v) e h =
    let (len, one) = delete-count i v w.live e in
    let (k, l) = h in
    let fewer : (j : String)
        → count_of j (release v.mountpoint v.ip i w.server)
            + (if string_eq.beq v.ip j then 1 else 0)
          ≡ count_of j w.server =
      λ j.
        release-count v.mountpoint v.ip j i w.server
          (omega (arith, k.per_ip v.ip, one v.ip, self_counts v.ip)) in
    (
      record {
        total = unfold release in omega (arith, len, k.total);
        per_ip = λ j. omega (arith, fewer j, one j, k.per_ip j);
      },
      record {
        total = λ on. unfold release in omega (arith, l.total on);
        per_ip = λ j on. omega (arith, fewer j, l.per_ip j on);
      },
    )

step-Holds : (c : Config) (e : Event) (w : World) → Holds c w → Holds c (step c e w)
unfolding step
step-Holds c (asks r now) w h =
    asks-Holds c r w (admit c r now w.server) (admit-Change c r now w.server) h
step-Holds c (ends i answered) w h = ends-Holds c i answered w (find i w.live) refl h

step-lost : (c : Config) (e : Event) (w : World) → length w.lost ≤ length (step c e w).lost
unfolding step after_reply after_end
step-lost c (asks r now) w = asked (admit c r now w.server)
  where
    asked : (p : Server × Reply) → length w.lost ≤ length (after_reply r w p).lost
    asked (s, forbidden) = omega arith
    asked (s, unauthorized) = omega arith
    asked (s, fails) = omega arith
    asked (s, accepted id) = omega arith
step-lost c (ends i answered) w = ended answered (find i w.live)
  where
    ended : (b : Bool) (o : Option Live) → length w.lost ≤ length (after_end i b w o).lost
    ended b none = omega arith
    ended true (some v) = omega arith
    ended false (some v) = omega arith

-- Over any requests and ends of connections, from a state where it is so: the counters, in all and
-- of each address, count the rovers that are connected and those whose handler was left without
-- a release, as when the answer could not be sent; neither counter passes its limit; and of the
-- latter rovers there are never fewer than before.
pub run-IsWithin :
    (c : Config) (es : List Event) (w : World)
    → IsCounted w
    → IsWithin c w.server
    → IsCounted (run c es w)
      × IsWithin c (run c es w).server
      × (length w.lost ≤ length (run c es w).lost)
unfolding run
run-IsWithin c [] w k l = (k, l, omega arith)
run-IsWithin c (e ∷ es) w k l =
    let (k', l') = step-Holds c e w (k, l) in
    let (k'', l'', kept) = run-IsWithin c es (step c e w) k' l' in
    (k'', l'', omega (arith, step-lost c e w, kept))
