-- ===== src/Logger/Zap.antt =====
-- internal/logger/zap-logger.go and `NewLogger` of logger.go. The sugared logger of the zap library is
-- a parameter: what its methods do to the writer behind it.
use gokue.Prelude.{ℕ, String, Option, none, some, List, [], ◌∷◌, ◌++◌, ◌≡◌, sym, ap, ◌∙◌}
use gokue.Logger.{Level, debug, info, warn, error, Value, Entry}
use mathlib.Core.List.{append_assoc, append-nil}

abbrev Fields : Type 0
Fields = List (String × Value)

-- The errors of a writer, known by a number.
abbrev WriteError : Type 0
WriteError = ℕ

record Sugar : Type 1 where
  pub Writer : Type 0
  pub debugw : String → Fields → Writer → Writer
  pub infow : String → Fields → Writer → Writer
  pub warnw : String → Fields → Writer → Writer
  pub errorw : String → Fields → Writer → Writer
  pub sync : Writer → Writer × Option WriteError

abbrev shown_all : {A : Type 0} → (Level → String → Fields → A) → List Entry → List A
shown_all shown [] = []
shown_all shown (e ∷ entries) =
    let rest = shown_all shown entries in shown e.level e.message e.fields ∷ rest

module _ (sugar : Sugar) where
  open sugar use {Writer}

  -- The `switch` of `Log`.
  unfoldable log : Level → String → Fields → Writer → Writer
  log debug message fields w = sugar.debugw message fields w
  log info message fields w = sugar.infow message fields w
  log warn message fields w = sugar.warnw message fields w
  log error message fields w = sugar.errorw message fields w

  -- The entries that the helpers send, one after another.
  unfoldable log_all : List Entry → Writer → Writer
  unfolding log
  log_all [] w = w
  log_all (e ∷ entries) w = log_all entries (log e.level e.message e.fields w)

  -- The closer of `NewLogger`; `close` is the method of a writer that has one.
  unfoldable closer :
      Option (Writer → Writer × Option WriteError) → Writer → Writer × Option WriteError
  closer close w =
      let (synced, e) = sugar.sync w in
      elim e [
        | some failure ↦ (synced, some failure)
        | none ↦ elim close [ some method ↦ method synced | none ↦ (synced, none) ]
      ]

  -- A writer that holds `shown`, one text per entry, holds that of the new entries behind the old
  -- ones after `log_all`, if each method of the sugared logger appends the text of its entry.
  log_all-appends :
      {A : Type 0} (written : Writer → List A) (shown : Level → String → Fields → A)
      → ((level : Level) (message : String) (fields : Fields) (w : Writer)
          → written (log level message fields w) ≡ written w ++ shown level message fields ∷ [])
      → (entries : List Entry) (w : Writer)
      → written (log_all entries w) ≡ written w ++ shown_all shown entries
  unfolding log_all
  log_all-appends written shown appends [] w = sym (append-nil (written w))
  log_all-appends written shown appends (e ∷ entries) w =
      log_all-appends written shown appends entries (log e.level e.message e.fields w)
      ∙ ap (λ l. l ++ shown_all shown entries) (appends e.level e.message e.fields w)
      ∙ append_assoc (written w) (shown e.level e.message e.fields ∷ []) (shown_all shown entries)
