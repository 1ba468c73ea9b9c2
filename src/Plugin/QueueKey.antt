-- ===== src/Plugin/QueueKey.antt =====
-- src/plugins/_shared/initial-queue-key.ts: the keys `queue:{pluginId}:{kind}:{id}` of the ready queues.
use nxt_device_messaging.Common.{
  ℕ, ◌≡◌, ◌≢◌, refl, sym, ap, ◌∙◌, Text, txt, text_discrete, Bool, true, false, ◌&&◌, not, Option,
  none, some, some_inj, List, [], Bool-cases, Option-cases, inl, inr, ◌∷◌, ◌++◌, length, get_elem?,
  drop, leb, ◌==◌, if◌then◌else◌, ite, arith,
}

-- The character `:`.
abbrev colon : ℕ
colon = 58

abbrev first_char : ℕ → List Text → List Text
first_char c [] = (c ∷ []) ∷ []
first_char c (w ∷ ws) = (c ∷ w) ∷ ws

-- `t.split(':')`.
unfoldable pub split_colon : Text → List Text
split_colon [] = [] ∷ []
split_colon (c ∷ cs) =
    let rest = split_colon cs in if c == colon then [] ∷ rest else first_char c rest

-- `parts.join(':')`.
unfoldable pub join_colon : List Text → Text
join_colon [] = []
join_colon (w ∷ []) = w
join_colon (w ∷ v ∷ ws) = w ++ colon ∷ join_colon (v ∷ ws)

unfoldable pub build_initial_queue_key : Text → Text → Text → Text
build_initial_queue_key plugin_id kind id =
    txt "queue:" ++ (plugin_id ++ colon ∷ (kind ++ colon ∷ id))

abbrev is_part : Text → Option Text → Bool
is_part t none = false
is_part t (some w) = ite (text_discrete w t) true false

abbrev if_valid : List Text → Option (List Text)
if_valid parts =
    if leb 4 (length parts)
      && is_part (txt "queue") (get_elem? parts 0)
      && not (is_part [] (get_elem? parts 1))
    then some parts
    else none

unfoldable pub parse_initial_queue_key : Text → Option (List Text)
unfolding split_colon
parse_initial_queue_key queue_key = if_valid (split_colon queue_key)

abbrev second : Option (List Text) → Option Text
second none = none
second (some parts) = get_elem? parts 1

unfoldable pub get_plugin_id_from_initial_queue_key : Text → Option Text
unfolding parse_initial_queue_key
get_plugin_id_from_initial_queue_key queue_key = second (parse_initial_queue_key queue_key)

abbrev rate_limit_of : Option (List Text) → Option Text
rate_limit_of none = none
rate_limit_of (some parts) = some (txt "rate_limit:" ++ join_colon (drop 1 parts))

unfoldable pub build_concurrency_rate_limit_key : Text → Option Text
unfolding parse_initial_queue_key
build_concurrency_rate_limit_key queue_key = rate_limit_of (parse_initial_queue_key queue_key)

-- A text with no colon in it.
abbrev pub HasNoColon : Text → Type 0
HasNoColon [] = Unit {0}
HasNoColon (c ∷ cs) = (c ≢ colon) × HasNoColon cs

split_colon-append :
    (a rest : Text) → HasNoColon a → split_colon (a ++ colon ∷ rest) ≡ a ∷ split_colon rest
unfolding split_colon
split_colon-append [] rest h = refl
split_colon-append (c ∷ cs) rest h = ground (arith, split_colon-append cs rest h.1)

-- What the parts of a text join to: the first one, and the rest behind a colon.
abbrev Joins : List Text → Text → Type 0
Joins [] t = ⊥
Joins (w ∷ ws) t = join_colon (w ∷ ws) ≡ t

Joins-colon : (ws : List Text) (t : Text) → Joins ws t → Joins ([] ∷ ws) (colon ∷ t)
unfolding join_colon
Joins-colon [] t h = absurd h
Joins-colon (w ∷ ws) t h = ap (λ (x : Text). colon ∷ x) h

Joins-first_char :
    (c : ℕ) (ws : List Text) (t : Text) → Joins ws t → Joins (first_char c ws) (c ∷ t)
unfolding join_colon
Joins-first_char c [] t h = absurd h
Joins-first_char c (w ∷ []) t h = ap (λ (x : Text). c ∷ x) h
Joins-first_char c (w ∷ v ∷ ws) t h = ap (λ (x : Text). c ∷ x) h

split_colon-Joins : (t : Text) → Joins (split_colon t) t
unfolding split_colon join_colon
split_colon-Joins [] = refl
split_colon-Joins (c ∷ cs) = elim (Bool-cases (c == colon)) [
  | inl e ↦
      let same : c ≡ colon = ground arith in
      rw (e, same) (Joins-colon (split_colon cs) cs (split_colon-Joins cs))
  | inr e ↦ rw e (Joins-first_char c (split_colon cs) cs (split_colon-Joins cs))
]

is_part-some : (t : Text) (o : Option Text) → is_part t o ≡ true → o ≡ some t
is_part-some t none e = cc
is_part-some t (some w) e = ap some (ground arith)

if_valid-some :
    (parts ps : List Text)
    → if_valid parts ≡ some ps
    → (parts ≡ ps) × ((leb 4 (length parts) ≡ true) × (get_elem? parts 0 ≡ some (txt "queue")))
if_valid-some parts ps e = elim (Bool-cases (is_part (txt "queue") (get_elem? parts 0))) [
  | inl h ↦ (ground arith, (ground arith, is_part-some (txt "queue") (get_elem? parts 0) h))
  | inr h ↦ absurd (ground arith)
]

-- A key with a queue's parts is `queue:` and the rest of its parts.
after_queue :
    (parts : List Text) (key : Text)
    → Joins parts key
    → leb 4 (length parts) ≡ true
    → get_elem? parts 0 ≡ some (txt "queue")
    → key ≡ txt "queue:" ++ join_colon (drop 1 parts)
unfolding join_colon
after_queue [] key j len e = absurd j
after_queue (w ∷ []) key j len e = absurd (ground arith)
after_queue (w ∷ v ∷ ws) key j len e =
    sym j ∙ ap (λ (x : Text). x ++ colon ∷ join_colon (v ∷ ws)) (some_inj e)

second_named :
    (key id : Text) (o : Option (List Text))
    → if_valid (split_colon key) ≡ o
    → second o ≡ some id
    → (rest : Text) × (key ≡ txt "queue:" ++ rest)
second_named key id none e f = cc
second_named key id (some ps) e f =
    let (same, (long, first)) = if_valid-some (split_colon key) ps e in
    (
      join_colon (drop 1 (split_colon key)),
      after_queue (split_colon key) key (split_colon-Joins key) long first,
    )

-- A key that names a plugin begins as ready queues do.
pub get_plugin_id_from_initial_queue_key-queue :
    (key id : Text)
    → get_plugin_id_from_initial_queue_key key ≡ some id
    → (rest : Text) × (key ≡ txt "queue:" ++ rest)
unfolding get_plugin_id_from_initial_queue_key parse_initial_queue_key
get_plugin_id_from_initial_queue_key-queue key id e =
    second_named key id (if_valid (split_colon key)) refl e

-- What a rate-limit key is made of.
build_concurrency_rate_limit_key-some :
    (key r : Text)
    → build_concurrency_rate_limit_key key ≡ some r
    → (body : Text) × ((key ≡ txt "queue:" ++ body) × (r ≡ txt "rate_limit:" ++ body))
unfolding build_concurrency_rate_limit_key parse_initial_queue_key
build_concurrency_rate_limit_key-some key r e = elim (Option-cases (parse_initial_queue_key key)) [
  | inl h ↦ absurd (ground arith)
  | inr (ps, h) ↦
      let (same, (len, first)) = if_valid-some (split_colon key) ps h in
      (
        join_colon (drop 1 ps),
        (
          rw (← same) (after_queue (split_colon key) key (split_colon-Joins key) len first),
          (some_inj (sym e ∙ ap rate_limit_of h)),
        ),
      )
]

-- Two ready queues with one rate-limit key are one queue.
pub build_concurrency_rate_limit_key-injective :
    (key other r : Text)
    → build_concurrency_rate_limit_key key ≡ some r
    → build_concurrency_rate_limit_key other ≡ some r
    → key ≡ other
build_concurrency_rate_limit_key-injective key other r e f =
    let (b, (k, h)) = build_concurrency_rate_limit_key-some key r e in
    let (c, (l, g)) = build_concurrency_rate_limit_key-some other r f in cc

Joins-part : (w : Text) (ws : List Text) (t : Text) → Joins ws t → Joins (w ∷ ws) (w ++ colon ∷ t)
unfolding join_colon
Joins-part w [] t h = absurd h
Joins-part w (v ∷ ws) t h = ap (λ (x : Text). w ++ colon ∷ x) h

one_part : (ws : List Text) (t : Text) → Joins ws t → leb 1 (length ws) ≡ true
one_part [] t h = absurd h
one_part (w ∷ ws) t h = ground arith

two_parts : (a b : Text) → leb 2 (length (split_colon (a ++ colon ∷ b))) ≡ true
unfolding split_colon
two_parts [] b = ground (arith, one_part (split_colon b) b (split_colon-Joins b))
two_parts (c ∷ cs) b = ground (arith, two_parts cs b)

parse_initial_queue_key-build :
    (plugin_id kind id : Text)
    → plugin_id ≢ []
    → HasNoColon plugin_id
    → parse_initial_queue_key (build_initial_queue_key plugin_id kind id)
      ≡ some (txt "queue" ∷ plugin_id ∷ split_colon (kind ++ colon ∷ id))
unfolding build_initial_queue_key parse_initial_queue_key
parse_initial_queue_key-build plugin_id kind id some_id free =
    let queue : HasNoColon (txt "queue") =
      ((λ e. cc), ((λ e. cc), ((λ e. cc), ((λ e. cc), ((λ e. cc), tt))))) in
    rw
      (
        split_colon-append (txt "queue") (plugin_id ++ colon ∷ (kind ++ colon ∷ id)) queue,
        split_colon-append plugin_id (kind ++ colon ∷ id) free,
      )
      (ground (arith, two_parts kind id))

-- The plugin id and the rate-limit key of a ready queue are those it was built from, for an id that is
-- not empty and has no colon, whatever the kind and the instance are.
pub build_initial_queue_key-parsed :
    (plugin_id kind id : Text)
    → plugin_id ≢ []
    → HasNoColon plugin_id
    → (get_plugin_id_from_initial_queue_key (build_initial_queue_key plugin_id kind id)
        ≡ some plugin_id)
      × (build_concurrency_rate_limit_key (build_initial_queue_key plugin_id kind id)
          ≡ some (txt "rate_limit:" ++ (plugin_id ++ colon ∷ (kind ++ colon ∷ id))))
unfolding get_plugin_id_from_initial_queue_key build_concurrency_rate_limit_key
build_initial_queue_key-parsed plugin_id kind id some_id free =
    let rest = split_colon (kind ++ colon ∷ id) in
    let parsed = parse_initial_queue_key-build plugin_id kind id some_id free in
    let joined : join_colon (plugin_id ∷ rest) ≡ plugin_id ++ colon ∷ (kind ++ colon ∷ id) =
      Joins-part plugin_id rest (kind ++ colon ∷ id) (split_colon-Joins (kind ++ colon ∷ id)) in
    rw parsed (refl, ap (λ (x : Text). some (txt "rate_limit:" ++ x)) joined)
