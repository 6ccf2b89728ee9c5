-- ===== src/Tasks/Narrowed.antt =====
-- internal/tasks/options.go: the options of a run only narrow the saved tasks.
use miyohub.Base.{
  Bool, Bool-cases, List, String, [], any_of, arith, inl, inr, keep_if, not, refl, true, ◌==◌, ◌||◌,
  ◌∷◌, ◌≡◌,
}
use miyohub.Model.{Config}
use miyohub.Store.Tasks.Settings.{chosen, has_tasks}
use miyohub.Tasks.Options.{RunOptions, apply_options, available, config_tasks, filter_games}

abbrev pub implies : Bool → Bool → Bool
implies a b = not a || b

kept-chosen :
    (t : String → Bool) (xs : List String) → chosen (keep_if t xs) ≡ true → chosen xs ≡ true
kept-chosen t [] h = h
kept-chosen t (x ∷ xs) h = refl

filter_games-chosen :
    (o : RunOptions) (keys : List String) → chosen (filter_games o keys) ≡ true → chosen keys ≡ true
filter_games-chosen o keys h = elim (Bool-cases (chosen o.games)) [
  | inl e ↦ kept-chosen (λ key. any_of (λ g. g == key) o.games) keys (rw e at h)
  | inr e ↦ rw e at h
]

keep_if-twice {ℓ} :
    {A : Type ℓ} (t : A → Bool) (xs : List A) → keep_if t (keep_if t xs) ≡ keep_if t xs
keep_if-twice t [] = refl
keep_if-twice t (x ∷ xs) = elim (Bool-cases (t x)) [
  | inl e ↦ rw (e, e, keep_if-twice t xs) refl
  | inr e ↦ rw (e, keep_if-twice t xs) refl
]

filter_games-twice :
    (o : RunOptions) (keys : List String)
    → filter_games o (filter_games o keys) ≡ filter_games o keys
filter_games-twice o keys = elim (Bool-cases (chosen o.games)) [
  | inl e ↦ rw (e, keep_if-twice (λ key. any_of (λ g. g == key) o.games) keys) refl
  | inr e ↦ rw e refl
]

kept-any_of :
    (q t : String → Bool) (xs : List String) → any_of q (keep_if t xs) ≡ true → any_of q xs ≡ true
kept-any_of q t [] h = h
kept-any_of q t (x ∷ xs) h = ground (arith, h, kept-any_of q t xs)

abbrev pub has_text : String → List String → Bool
has_text key xs = any_of (λ x. x == key) xs

filter_games-has_text :
    (o : RunOptions) (keys : List String) (key : String)
    → has_text key (filter_games o keys) ≡ true
    → has_text key keys ≡ true
filter_games-has_text o keys key h = elim (Bool-cases (chosen o.games)) [
  | inl e ↦ kept-any_of (λ x. x == key) (λ k. any_of (λ g. g == k) o.games) keys (rw e at h)
  | inr e ↦ rw e at h
]

-- The tasks of one configuration are among those of another.
pub record IsWithin (a b : Config) : Type 0 where
  games_off : implies a.features.game_checkin b.features.game_checkin ≡ true
  cloud_off : implies a.features.cloud_game_checkin b.features.cloud_game_checkin ≡ true
  bbs_off : implies a.features.bbs_tasks b.features.bbs_tasks ≡ true
  games : (key : String) → has_text key a.games.enabled ≡ true → has_text key b.games.enabled ≡ true
  cloud_games :
      (key : String)
      → has_text key a.cloud_games.enabled ≡ true
      → has_text key b.cloud_games.enabled ≡ true

apply_options_twice :
    (o : RunOptions) (c : Config) → apply_options o (apply_options o c) ≡ apply_options o c
unfolding apply_options
apply_options_twice o c =
    let first = filter_games-twice o c.games.enabled in
    let second = filter_games-twice o c.cloud_games.enabled in
    elim (Bool-cases o.games_only) [
      | inl p ↦ elim (Bool-cases o.bbs_only) [
        | inl q ↦ rw (first, second, p, q) refl
        | inr q ↦ rw (first, second, p, q) refl
      ]
      | inr p ↦ elim (Bool-cases o.bbs_only) [
        | inl q ↦ rw (first, second, p, q) refl
        | inr q ↦ rw (first, second, p, q) refl
      ]
    ]

-- The options of a run only narrow the saved tasks: no feature and no game is added, giving them twice
-- is giving them once, and a run that has something to do had it to do without them.
pub apply_options-IsWithin :
    (o : RunOptions) (c : Config)
    → IsWithin (apply_options o c) c
      × (apply_options o (apply_options o c) ≡ apply_options o c)
      × (implies (available o c) (config_tasks c) ≡ true)
unfolding available apply_options config_tasks has_tasks
apply_options-IsWithin o c = (
  record {
    games_off = ground arith;
    cloud_off = ground arith;
    bbs_off = ground arith;
    games = λ key h. filter_games-has_text o c.games.enabled key h;
    cloud_games = λ key h. filter_games-has_text o c.cloud_games.enabled key h;
  },
  apply_options_twice o c,
  ground
      (arith, filter_games-chosen o c.games.enabled, filter_games-chosen o c.cloud_games.enabled),
)
