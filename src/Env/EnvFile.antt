-- ===== src/Env/EnvFile.antt =====
-- `load_env_file`: what an assignment in the file does to the dictionary.
use e2ee_app.Base.{
  ℕ, ◌≡◌, refl, ◌∙◌, ap, sym, append-nil, true, false, ◌||◌, ◌&&◌, Bool-cases, inl, inr, some, [],
  ◌∷◌, ◌++◌, ◌==◌, ==_refl, All, if◌then◌else◌, arith,
}
use e2ee_app.Env.{partition, last_char, init, unquote, store_line, load_line}
use e2ee_app.Py.Dict.{Dict, lookup, insert, lookup-insert}
use e2ee_app.Py.Text.{
  Text, codes, is_space, lstrip, rstrip, strip, starts_with, text_eq, text_eq_refl,
}

abbrev IsKeyChar : ℕ → Type 0
IsKeyChar c = (is_space c ≡ false) × ((c == b'=') ≡ false)

-- A name that an assignment can begin with.
abbrev pub IsKey : Text → Type 0
IsKey [] = ⊥
IsKey (c ∷ w) = ((c == b'#') ≡ false) × IsKeyChar c × All IsKeyChar w

-- No white space at either end.
abbrev pub IsTrimmed : Text → Type 0
IsTrimmed v = (lstrip v ≡ v) × (rstrip v ≡ v)

rstrip-cons : (c : ℕ) (v : Text) → is_space c ≡ false → rstrip (c ∷ v) ≡ c ∷ rstrip v
unfolding rstrip
rstrip-cons c v h = by_rest (rstrip v)
  where
    by_rest :
        (r : Text) → (elim r [ [] ↦ if is_space c then [] else c ∷ [] | d ∷ t ↦ c ∷ d ∷ t ]) ≡ c ∷ r
    by_rest [] = rw h
    by_rest (d ∷ t) = refl

rstrip-append : (k v : Text) → All IsKeyChar k → rstrip (k ++ v) ≡ k ++ rstrip v
rstrip-append [] v h = refl
rstrip-append (c ∷ k) v h = rstrip-cons c (k ++ v) h.0.0 ∙ ap (◌∷◌ c) (rstrip-append k v h.1)

partition-append : (k v : Text) → All IsKeyChar k → partition (k ++ b'=' ∷ v) ≡ some (k, v)
unfolding partition
partition-append [] v h = refl
partition-append (c ∷ k) v h = rw (h.0.1, partition-append k v h.1)

strip_key : (c : ℕ) (w : Text) → IsKey (c ∷ w) → strip (c ∷ w) ≡ c ∷ w
unfolding strip lstrip
strip_key c w h = rw h.1.0 (
    ap rstrip (ap (◌∷◌ c) (sym (append-nil w)))
    ∙ rstrip-append (c ∷ w) [] (h.1, h.2)
    ∙ unfold rstrip in ap (◌∷◌ c) (append-nil w))

strip_line :
    (c : ℕ) (w v : Text)
    → IsKey (c ∷ w)
    → rstrip v ≡ v
    → strip (c ∷ (w ++ b'=' ∷ v)) ≡ c ∷ (w ++ b'=' ∷ v)
unfolding strip lstrip
strip_line c w v h e = rw h.1.0 (
    rstrip-append (c ∷ w) (b'=' ∷ v) (h.1, h.2)
    ∙ ap (λ (t : Text). c ∷ (w ++ t))
        (rstrip-cons b'=' v (unfold is_space in refl) ∙ ap (◌∷◌ b'=') e))

strip_trimmed : (v : Text) → IsTrimmed v → strip v ≡ v
unfolding strip
strip_trimmed v h = ap rstrip h.0 ∙ h.1

starts_with_hash :
    (c : ℕ) (s : Text) → (c == b'#') ≡ false → starts_with (codes "#") (c ∷ s) ≡ false
unfolding starts_with
starts_with_hash c s h = ground arith

load_line-insert :
    (k v : Text) (env : Dict)
    → IsKey k
    → IsTrimmed v
    → load_line (k ++ b'=' ∷ v) env ≡ insert k (unquote v) env
unfolding load_line
load_line-insert [] v env h t = absurd h
load_line-insert (c ∷ w) v env h t =
    ap (λ (line : Text). store_line line env) (strip_line c w v h t.1)
    ∙ unfold store_line in
      rw (
        starts_with_hash c (w ++ b'=' ∷ v) h.0,
        partition-append (c ∷ w) v (h.1, h.2),
        strip_key c w h,
        strip_trimmed v t,
      )

lookup-load_line :
    (k v j : Text) (env : Dict)
    → IsKey k
    → IsTrimmed v
    → lookup j (load_line (k ++ b'=' ∷ v) env)
      ≡ (if text_eq k j then some (unquote v) else lookup j env)
lookup-load_line k v j env h t =
    rw (load_line-insert k v env h t) (lookup-insert k j (unquote v) env)

last_char-append : (c d : ℕ) (u : Text) → last_char c (u ++ d ∷ []) ≡ d
last_char-append c d [] = refl
last_char-append c d (x ∷ u) = last_char-append x d u

init-append : (u : Text) (d : ℕ) → init (u ++ d ∷ []) ≡ u
init-append [] d = refl
init-append (x ∷ []) d = refl
init-append (x ∷ y ∷ u) d = ap (◌∷◌ x) (init-append (y ∷ u) d)

unquote_quoted :
    (q : ℕ) (u : Text) → (q == b'\'' || q == b'"') ≡ true → unquote (q ∷ (u ++ q ∷ [])) ≡ u
unfolding unquote
unquote_quoted q [] h = rw (==_refl q, h)
unquote_quoted q (x ∷ u) h = rw (last_char-append x q u, ==_refl q, h) (init-append (x ∷ u) q)

abbrev pub IsQuote : ℕ → Type 0
IsQuote q = (q == b'\'' || q == b'"') ≡ true

-- The second text is the first without the quotes around it, if it has two of one kind.
pub data IsUnquoted : Text → Text → Type 0 where
  quoted : (q : ℕ) (u : Text) → IsQuote q → IsUnquoted (q ∷ (u ++ q ∷ [])) u
  bare : {v : Text} → ((q : ℕ) (u : Text) → IsQuote q → v ≡ q ∷ (u ++ q ∷ []) → ⊥) → IsUnquoted v v

init-last_char : (d : ℕ) (s : Text) → init (d ∷ s) ++ last_char d s ∷ [] ≡ d ∷ s
init-last_char d [] = refl
init-last_char d (x ∷ s) = ap (◌∷◌ d) (init-last_char x s)

append_ne_nil : (u : Text) (q : ℕ) → [] ≡ u ++ q ∷ [] → ⊥
append_ne_nil [] q e = cc
append_ne_nil (c ∷ u) q e = cc

tail_eq : {c d : ℕ} {s t : Text} → c ∷ s ≡ d ∷ t → s ≡ t
tail_eq e = cc

head_eq : {c d : ℕ} {s t : Text} → c ∷ s ≡ d ∷ t → c ≡ d
head_eq e = cc

true_ne : true ≡ false → ⊥
true_ne e = cc

parts_of : (c last : ℕ) → (c == last && (c == b'\'' || c == b'"')) ≡ true → (c ≡ last) × IsQuote c
parts_of c last h = (ground arith, ground arith)

whole_of : (c last : ℕ) → c ≡ last → IsQuote c → (c == last && (c == b'\'' || c == b'"')) ≡ true
whole_of c last e h = ground arith

-- Both ends of a quoted text.
ends_of : (c d q : ℕ) (s u : Text) → c ∷ d ∷ s ≡ q ∷ (u ++ q ∷ []) → (c ≡ q) × (last_char d s ≡ q)
ends_of c d q s u e = (head_eq e, ap (last_char 0) (tail_eq e) ∙ last_char-append 0 q u)

unquote-IsUnquoted : (v : Text) → IsUnquoted v (unquote v)
unfolding unquote
unquote-IsUnquoted [] = IsUnquoted.bare (λ q u h e. cc)
unquote-IsUnquoted (c ∷ []) = IsUnquoted.bare (λ q u h e. append_ne_nil u q (tail_eq e))
unquote-IsUnquoted (c ∷ d ∷ s) =
    elim (Bool-cases (c == last_char d s && (c == b'\'' || c == b'"'))) [
      | inl e ↦
          let (same, quote) = parts_of c (last_char d s) e in
          rw e (
            rw (ap (λ q. init (d ∷ s) ++ q ∷ []) same ∙ init-last_char d s) at
              (IsUnquoted.quoted c (init (d ∷ s)) quote))
      | inr e ↦ rw e (
          IsUnquoted.bare (λ q u h around.
            let (a, b) = ends_of c d q s u around in
            true_ne (sym (whole_of c (last_char d s) (a ∙ sym b) (rw (sym a) at h)) ∙ e)))
    ]

-- After a line `KEY=VALUE`, where the value has no white space at its ends, the key has the value,
-- without the quotes around it if it has two of one kind and as it is otherwise, and every other key
-- is as before.
pub load_line-assignment :
    (k v : Text) (env : Dict)
    → IsKey k
    → IsTrimmed v
    → (u : Text) × IsUnquoted v u
      × ((j : Text)
          → lookup j (load_line (k ++ b'=' ∷ v) env)
            ≡ (if text_eq k j then some u else lookup j env))
load_line-assignment k v env h t =
    (unquote v, unquote-IsUnquoted v, λ j. lookup-load_line k v j env h t)

rstrip-append_end : (t : Text) (q : ℕ) → is_space q ≡ false → rstrip (t ++ q ∷ []) ≡ t ++ q ∷ []
unfolding rstrip
rstrip-append_end [] q h = rw h
rstrip-append_end (c ∷ []) q h = rw (h, rstrip)
rstrip-append_end (c ∷ d ∷ t) q h = rw (rstrip-append_end (d ∷ t) q h, rstrip)

quote-is_space : (q : ℕ) → (q == b'\'' || q == b'"') ≡ true → is_space q ≡ false
unfolding is_space
quote-is_space q h = ground arith

quoted-IsTrimmed :
    (q : ℕ) (u : Text) → (q == b'\'' || q == b'"') ≡ true → IsTrimmed (q ∷ (u ++ q ∷ []))
quoted-IsTrimmed q u h =
    (unfold lstrip in rw (quote-is_space q h), rstrip-append_end (q ∷ u) q (quote-is_space q h))

-- Whatever text stands between two quotes of one kind, with spaces, `=` or `#` in it, is the
-- value of its key.
pub load_line_quoted :
    (k u : Text) (q : ℕ) (env : Dict)
    → IsKey k
    → (q == b'\'' || q == b'"') ≡ true
    → lookup k (load_line (k ++ b'=' ∷ q ∷ (u ++ q ∷ [])) env) ≡ some u
load_line_quoted k u q env h quote =
    lookup-load_line k (q ∷ (u ++ q ∷ [])) k env h (quoted-IsTrimmed q u quote)
    ∙ rw (text_eq_refl k, unquote_quoted q u quote)
