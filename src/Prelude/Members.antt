-- ===== src/Prelude/Members.antt =====
-- Membership in a list of texts after an append and a removal.
use q_bittorrent_rss_rules.Prelude.{
  ◌≡◌, refl, false, not, ◌&&◌, ◌||◌, List, [], ◌∷◌, ◌++◌, arith, contains, ◌==◌, text_eq, Nodup,
  keep_if,
}
use q_bittorrent_rss_rules.Prelude.Text.{Text}

-- `set.discard`
abbrev pub discard : Text → List Text → List Text
discard a = keep_if (λ x. not (x == a))

pub contains-snoc :
    (xs : List Text) (x a : Text) → contains (xs ++ x ∷ []) a ≡ (contains xs a || a == x)
contains-snoc [] x a = ground arith
contains-snoc (y ∷ xs) x a = ground (arith, contains-snoc xs x a)

pub contains-discard :
    (xs : List Text) (x a : Text) → contains (discard x xs) a ≡ (not (a == x) && contains xs a)
contains-discard [] x a = ground arith
contains-discard (y ∷ xs) x a = ground (arith, contains-discard xs x a)

pub Nodup-snoc :
    (xs : List Text) (x : Text) → contains xs x ≡ false → Nodup xs → Nodup (xs ++ x ∷ [])
Nodup-snoc [] x h n = (refl, tt)
Nodup-snoc (y ∷ xs) x h (f, n) =
    (ground (arith, contains-snoc xs x y), Nodup-snoc xs x (ground arith) n)
