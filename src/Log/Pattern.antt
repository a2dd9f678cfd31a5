-- ===== src/Log/Pattern.antt =====
-- What `LoggerFormatter::init` makes of a pattern: texts, and a directive after each but the last.
use lib_net_co_rpc.Prelude.{ℕ, ◌≡◌, ◌≢◌, refl, false, List, [], ◌∷◌, ◌++◌, some, ◌==◌, All}
use lib_net_co_rpc.Log.{
  Directive, date_time, tab, thread_id, thread_name, fiber_id, level, logger_name, file_name, line,
  message, new_line, Item, text, percent, directive_of, pushed,
}

-- the letter that a pattern has for a directive
abbrev pub letter : Directive → ℕ
letter date_time = 100
letter tab = 84
letter thread_id = 116
letter thread_name = 78
letter fiber_id = 70
letter level = 112
letter logger_name = 99
letter file_name = 102
letter line = 108
letter message = 109
letter new_line = 110

pub directive_of-letter : (d : Directive) → directive_of (letter d) ≡ some d
unfolding directive_of
directive_of-letter date_time = refl
directive_of-letter tab = refl
directive_of-letter thread_id = refl
directive_of-letter thread_name = refl
directive_of-letter fiber_id = refl
directive_of-letter level = refl
directive_of-letter logger_name = refl
directive_of-letter file_name = refl
directive_of-letter line = refl
directive_of-letter message = refl
directive_of-letter new_line = refl

pub letter-percent : (d : Directive) → (letter d == percent) ≡ false
letter-percent date_time = refl
letter-percent tab = refl
letter-percent thread_id = refl
letter-percent thread_name = refl
letter-percent fiber_id = refl
letter-percent level = refl
letter-percent logger_name = refl
letter-percent file_name = refl
letter-percent line = refl
letter-percent message = refl
letter-percent new_line = refl

-- A text, and the directive after it.
pub record Piece : Type 0 where
  pub before : List ℕ
  pub directive : Directive

-- neither '%' nor the end of a C string
abbrev pub Plain : List ℕ → Type 0
Plain = All (λ c. (c ≢ percent) × (c ≢ 0))

abbrev pub PlainPieces : List Piece → Type 0
PlainPieces = All (λ p. Plain p.before)

-- the pattern with these pieces, and `tail` at its end
unfoldable pub print : List Piece → List ℕ → List ℕ
print [] tail = tail
print (p ∷ pieces) tail = p.before ++ percent ∷ letter p.directive ∷ print pieces tail

-- a text's item; an empty text has none
abbrev pub texts : List ℕ → List Item
texts [] = []
texts (c ∷ rest) = text (c ∷ rest) ∷ []

-- The text before `%d` keeps the '%'.
abbrev pub kept_percent : Directive → List ℕ
kept_percent date_time = percent ∷ []
kept_percent tab = []
kept_percent thread_id = []
kept_percent thread_name = []
kept_percent fiber_id = []
kept_percent level = []
kept_percent logger_name = []
kept_percent file_name = []
kept_percent line = []
kept_percent message = []
kept_percent new_line = []

abbrev pub before_items : List ℕ → Directive → List Item
before_items [] d = []
before_items (c ∷ rest) d = text ((c ∷ rest) ++ kept_percent d) ∷ []

-- the items of a pattern
unfoldable pub items : List Piece → List ℕ → List Item
items [] tail = texts tail
items (p ∷ pieces) tail =
    (before_items p.before p.directive ++ pushed p.directive) ++ items pieces tail
