-- ===== src/Log/Output.antt =====
-- What a call of a logger writes, and which loggers the manager hands out.
use lib_net_co_rpc.Prelude.{
  ℕ, ◌≡◌, refl, sym, ap, ◌∙◌, true, false, List, [], ◌∷◌, ◌++◌, Option, none, some, arith, ltb, leb,
  ◌==◌, if◌then◌else◌, inl, inr, Bool-cases, ℕ_discrete,
}
use mathlib.Core.List.{append_assoc, append-nil}
use lib_net_co_rpc.Prelude.Int.{ℤ}
use lib_net_co_rpc.NameService.{bytes_eq}
use lib_net_co_rpc.NameService.Order.{bytes_eq_refl}
use lib_net_co_rpc.Log.{Item}
use lib_net_co_rpc.Log.Logger.{
  Level, rank, LogEvent, LoggerAppender, Logger, Appenders, set_appender, format, appender_log,
  log_all, log, LoggerManager, get_logger,
}

-- every appender that the list names has a formatter
abbrev pub HasFormatters : List ℕ → Appenders → Type 0
HasFormatters [] store = Unit
HasFormatters (id ∷ ids) store =
    ((f : List Item) × ((store id).formatter ≡ some f)) × HasFormatters ids store

abbrev pub or_nothing : Option (List Item) → List Item
or_nothing none = []
or_nothing (some f) = f

module _ (strftime : ℕ → List ℕ) (show : ℤ → List ℕ) (x : Level) (e : LogEvent) where
  -- what one call writes to an appender whose level lets it through
  abbrev pub written : LoggerAppender → List ℕ
  written a =
      if ltb (rank a.least_level) (rank x)
      then format strftime show (or_nothing a.formatter) e
      else []

  -- what the calls for a list of appenders write to the one at `id`
  abbrev pub written_to : ℕ → List ℕ → Appenders → List ℕ
  written_to id [] store = []
  written_to id (i ∷ ids) store =
      if i == id then written (store id) ++ written_to id ids store else written_to id ids store

  pub record Logged (ids : List ℕ) (store after : Appenders) : Type 0 where
    pub output : (id : ℕ) → (after id).output ≡ (store id).output ++ written_to id ids store
    pub formatter : (id : ℕ) → (after id).formatter ≡ (store id).formatter
    pub least_level : (id : ℕ) → (after id).least_level ≡ (store id).least_level

  -- an appender after one call
  abbrev advanced : LoggerAppender → LoggerAppender
  advanced a = record a { output = a.output ++ written a }

  appender_log-advanced :
      (a : LoggerAppender) (f : List Item)
      → a.formatter ≡ some f
      → appender_log strftime show x e a ≡ some (advanced a)
  unfolding appender_log
  appender_log-advanced a f has = elim (Bool-cases (ltb (rank a.least_level) (rank x))) [
    | inl passes ↦
        rw (passes, has, appender_log)
          (ap
            (λ o. some (record a { formatter = o; output = a.output ++ format strftime show f e }))
            has)
    | inr held ↦ rw held (ap (λ o. some (record a { output = o })) (sym (append-nil a.output)))
  ]

  module _ (i : ℕ) (store : Appenders) where
    abbrev stepped : Appenders
    stepped = set_appender store i (advanced (store i))

    stepped-formatter : (id : ℕ) → (stepped id).formatter ≡ (store id).formatter
    stepped-formatter id = elim (ℕ_discrete i id) [
      | yes same ↦
          let hit : (i == id) ≡ true = ground arith in rw hit (ap (λ k. (store k).formatter) same)
      | no other ↦ let miss : (i == id) ≡ false = ground arith in rw miss
    ]

    stepped-least_level : (id : ℕ) → (stepped id).least_level ≡ (store id).least_level
    stepped-least_level id = elim (ℕ_discrete i id) [
      | yes same ↦
          let hit : (i == id) ≡ true = ground arith in rw hit (ap (λ k. (store k).least_level) same)
      | no other ↦ let miss : (i == id) ≡ false = ground arith in rw miss
    ]

    stepped-output :
        (id : ℕ)
        → (stepped id).output ≡ (store id).output ++ (if i == id then written (store id) else [])
    stepped-output id = elim (ℕ_discrete i id) [
      | yes same ↦
          let hit : (i == id) ≡ true = ground arith in
          rw hit (ap (λ k. (store k).output ++ written (store k)) same)
      | no other ↦
          let miss : (i == id) ≡ false = ground arith in
          rw miss (sym (append-nil (store id).output))
    ]

    -- What a call writes does not depend on what was written before.
    written-stepped : (id : ℕ) → written (stepped id) ≡ written (store id)
    written-stepped id =
        ap
          (λ l.
            if ltb (rank l) (rank x)
            then format strftime show (or_nothing (stepped id).formatter) e
            else [])
          (stepped-least_level id)
        ∙ ap
            (λ o.
              if ltb (rank (store id).least_level) (rank x)
              then format strftime show (or_nothing o) e
              else [])
            (stepped-formatter id)

    written_to-stepped :
        (id : ℕ) (ids : List ℕ) → written_to id ids stepped ≡ written_to id ids store
    written_to-stepped id [] = refl
    written_to-stepped id (j ∷ ids) =
        ap (λ w. if j == id then w ++ written_to id ids stepped else written_to id ids stepped)
          (written-stepped id)
        ∙ ap (λ w. if j == id then written (store id) ++ w else w) (written_to-stepped id ids)

    HasFormatters-stepped : (ids : List ℕ) → HasFormatters ids store → HasFormatters ids stepped
    HasFormatters-stepped [] h = tt
    HasFormatters-stepped (j ∷ ids) ((f, has), h) =
        ((f, stepped-formatter j ∙ has), HasFormatters-stepped ids h)

  split_written :
      (i id : ℕ) (ids : List ℕ) (store : Appenders)
      → (if i == id then written (store id) else []) ++ written_to id ids store
        ≡ written_to id (i ∷ ids) store
  split_written i id ids store = elim (Bool-cases (i == id)) [
    | inl hit ↦ rw hit
    | inr miss ↦ rw miss
  ]

  log_all-Logged :
      (ids : List ℕ) (store : Appenders)
      → HasFormatters ids store
      → (after : Appenders) × (log_all strftime show x e ids store ≡ some after)
        × Logged ids store after
  unfolding log_all
  log_all-Logged [] store h = (
    store,
    refl,
    record {
      output = λ id. sym (append-nil (store id).output);
      formatter = λ id. refl;
      least_level = λ id. refl;
    },
  )
  log_all-Logged (i ∷ ids) store ((f, has), h) =
      let (after, r, l) =
        log_all-Logged ids (stepped i store) (HasFormatters-stepped i store ids h) in
      (
        after,
        rw (appender_log-advanced (store i) f has, log_all) r,
        record {
          output = λ id.
              l.output id
              ∙ ap (λ w. (stepped i store id).output ++ w) (written_to-stepped i store id ids)
              ∙ ap (λ o. o ++ written_to id ids store) (stepped-output i store id)
              ∙ append_assoc (store id).output (if i == id then written (store id) else [])
                  (written_to id ids store)
              ∙ ap (λ w. (store id).output ++ w) (split_written i id ids store);
          formatter = λ id. l.formatter id ∙ stepped-formatter i store id;
          least_level = λ id. l.least_level id ∙ stepped-least_level i store id;
        },
      )

  -- `Logger::log` on a logger whose appenders have formatters calls none through a null pointer.
  -- Below the logger's level it changes nothing; else each appender has written the event once for
  -- every time that the logger lists it, if its own level is below that of the event.
  pub log-Logged :
      (l : Logger) (store : Appenders)
      → HasFormatters l.appenders store
      → (after : Appenders) × (log strftime show x e l store ≡ some after)
        × Logged (if leb (rank l.logger_level) (rank x) then l.appenders else []) store after
  unfolding log log_all
  log-Logged l store h = elim (Bool-cases (leb (rank l.logger_level) (rank x))) [
    | inl passes ↦ rw passes (log_all-Logged l.appenders store h)
    | inr held ↦ rw held (log_all-Logged [] store tt)
  ]

-- the loggers that a sequence of calls leaves
abbrev pub get_all : List (List ℕ) → LoggerManager → LoggerManager
get_all [] m = m
get_all (name ∷ names) m = get_all names (get_logger name m).1

get_logger_known :
    (name : List ℕ) (m : LoggerManager) (id : ℕ)
    → m.logger_map name ≡ some id
    → get_logger name m ≡ (id, m)
unfolding get_logger
get_logger_known name m id e = rw (e, get_logger)

-- A call leaves the entry of its own name, and those that were there.
get_logger_enters :
    (name : List ℕ) (m : LoggerManager)
    → (get_logger name m).1.logger_map name ≡ some (get_logger name m).0
unfolding get_logger
get_logger_enters name m = go (m.logger_map name) refl
  where
    go :
        (o : Option ℕ)
        → m.logger_map name ≡ o
        → (get_logger name m).1.logger_map name ≡ some (get_logger name m).0
    go none e = rw (e, bytes_eq_refl name, get_logger) (rw e)
    go (some id) e = rw (e, get_logger) e

get_logger_keeps :
    (other name : List ℕ) (m : LoggerManager) (id : ℕ)
    → m.logger_map name ≡ some id
    → (get_logger other m).1.logger_map name ≡ some id
unfolding get_logger
get_logger_keeps other name m id e = go (m.logger_map other) refl
  where
    go : (o : Option ℕ) → m.logger_map other ≡ o → (get_logger other m).1.logger_map name ≡ some id
    go none f =
        rw (f, get_logger)
          (elim (Bool-cases (bytes_eq other name)) [ inl h ↦ rw (h, e) | inr h ↦ rw h e ])
    go (some k) f = rw (f, get_logger) e

get_all_keeps :
    (names : List (List ℕ)) (name : List ℕ) (m : LoggerManager) (id : ℕ)
    → m.logger_map name ≡ some id
    → (get_all names m).logger_map name ≡ some id
get_all_keeps [] name m id e = e
get_all_keeps (other ∷ names) name m id e =
    get_all_keeps names name (get_logger other m).1 id (get_logger_keeps other name m id e)

-- After `getLogger` has returned a logger for a name, and any calls for any names after it, a call
-- for the same name returns the same logger and changes nothing.
pub get_logger_stable :
    (name : List ℕ) (names : List (List ℕ)) (m : LoggerManager)
    → let later = get_all names (get_logger name m).1 in
      get_logger name later ≡ ((get_logger name m).0, later)
get_logger_stable name names m =
    get_logger_known name (get_all names (get_logger name m).1) (get_logger name m).0 (
      get_all_keeps names name (get_logger name m).1 (get_logger name m).0
        (get_logger_enters name m))
