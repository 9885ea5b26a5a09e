-- ===== src/Net/Access.antt =====
-- Which addresses may connect.
use babilcors.Prelude.{
  ◌≡◌, ◌↔◌, refl, ◌⊎◌, Bool, true, false, Option, none, some, List, [], arith, ℕ,
}
use babilcors.Net.{is_empty, is_in, ip_allowed, route, read_line, handle_conn}

module _ {Ip Network : Type 0} (contains : Network → Ip → Bool) where
  -- An address that can be read is refused exactly if it is in a network of the deny list, or
  -- there is an allow list and it is in none of its networks.
  pub ip_allowed_iff :
      (ip : Ip) (allow deny : List Network)
      → (ip_allowed contains (some ip) allow deny ≡ false) ↔ (
          (is_in contains ip deny ≡ true)
          ⊎ ((is_empty allow ≡ false) × (is_in contains ip allow ≡ false)))
  unfolding ip_allowed
  ip_allowed_iff ip allow deny = ground arith

  -- An address that cannot be read passes any deny list, if there is no allow list.
  pub unreadable_passes :
      (deny : List Network) (first : Option (List ℕ))
      → handle_conn contains none [] deny first ≡ route (read_line 8192 first)
  unfolding handle_conn ip_allowed is_empty
  unreadable_passes deny first = refl
