-- ===== src/Net/Tests.antt =====
-- The theorems on connections at concrete inputs.
use babilcors.Prelude.{
  ℕ, ◌≤◌, ◌≡◌, ◌↔◌, ◌⊎◌, Bool, true, false, none, some, List, [], ◌∷◌, length, arith, ◌==◌,
}
use babilcors.Net.{
  fails, done, read_headers, is_empty, is_in, ip_allowed, handle_conn, route, read_line,
}
use babilcors.Net.Headers.{read_headers_ends}
use babilcors.Net.Access.{ip_allowed_iff, unreadable_passes}

-- Three lines, and two bytes allowed.
read_headers_ends_example :
    (read_headers 2 9 (some (65 ∷ 10 ∷ []) ∷ some (10 ∷ []) ∷ none ∷ []) [] ≡ fails)
    ⊎ ((r : List ℕ) × (read_headers 2 9 (some (65 ∷ 10 ∷ []) ∷ some (10 ∷ []) ∷ none ∷ []) []
          ≡ done r)
        × (length r ≤ 2))
read_headers_ends_example =
    read_headers_ends 2 9 (some (65 ∷ 10 ∷ []) ∷ some (10 ∷ []) ∷ none ∷ []) [] (omega arith)
      (omega arith)

abbrev within : ℕ → ℕ → Bool
within network ip = network == ip

ip_allowed_iff_case : (ip_allowed within (some 7) [] (7 ∷ []) ≡ false) ↔ (
    (is_in within 7 (7 ∷ []) ≡ true)
    ⊎ ((is_empty {A = ℕ} [] ≡ false) × (is_in within 7 [] ≡ false)))
ip_allowed_iff_case = ip_allowed_iff within 7 [] (7 ∷ [])

unreadable_passes_case :
    handle_conn within none [] (7 ∷ []) (some (65 ∷ [])) ≡ route (read_line 8192 (some (65 ∷ [])))
unreadable_passes_case = unreadable_passes within (7 ∷ []) (some (65 ∷ []))
