-- ===== src/Log/Scan.antt =====
-- The scan of a pattern that is made of pieces: the loop of `LoggerFormatter::init` ends with their
-- items.
use lib_net_co_rpc.Prelude.{
  take_all, drop-append, ℕ, suc, ◌+◌, ◌≡◌, ◌≢◌, refl, sym, ap, ◌∙◌, true, false, List, [], ◌∷◌,
  ◌++◌, arith, ltb, leb, ◌==◌, length, take, drop, All, All-map, All-both, length-append,
}
use lib_net_co_rpc.Log.{
  Directive, date_time, tab, thread_id, thread_name, fiber_id, level, logger_name, file_name, line,
  message, new_line, Item, text, percent, pushed, c_string, text_length, ScanState, text_before,
  scan_byte, scan, close, init,
}
use mathlib.Core.List.{append_assoc, append-nil}
use lib_net_co_rpc.Log.Pattern.{
  letter, directive_of-letter, letter-percent, Piece, Plain, PlainPieces, print, texts,
  kept_percent, before_items, items,
}

-- a scan between two directives
abbrev between : ℕ → List Item → ScanState
between start seq = record { fmt_status = false; substr_start = start; format_sequence = seq }

scan_byte-Plain :
    (format : List ℕ) (i c start : ℕ) (seq : List Item)
    → c ≢ percent
    → scan_byte format i c (between start seq) ≡ between start seq
unfolding scan_byte
scan_byte-Plain format i c start seq other =
    let miss : (c == percent) ≡ false = ground arith in rw miss

scan-Plain :
    (format : List ℕ) (i : ℕ) (t rest : List ℕ) (start : ℕ) (seq : List Item)
    → Plain t
    → scan format i (t ++ rest) (between start seq)
      ≡ scan format (i + length t) rest (between start seq)
unfolding scan
scan-Plain format i [] rest start seq plain =
    ap (λ n. scan format n rest (between start seq)) (omega arith)
scan-Plain format i (c ∷ t) rest start seq ((other, _), plain) =
    ap (scan format (i + 1) (t ++ rest)) (scan_byte-Plain format i c start seq other)
    ∙ scan-Plain format (i + 1) t rest start seq plain
    ∙ ap (λ n. scan format n rest (between start seq)) (omega arith)

scan-directive :
    (format : List ℕ) (i : ℕ) (d : Directive) (rest : List ℕ) (start : ℕ) (seq : List Item)
    → scan format i (percent ∷ letter d ∷ rest) (between start seq)
      ≡ scan format
          (i + 2)
          rest
          (between (i + 2) (seq ++ text_before format (i + 1) d start ++ pushed d))
unfolding scan scan_byte
scan-directive format i d rest start seq =
    let two : i + 1 + 1 ≡ i + 2 = omega arith in
    rw (letter-percent d, directive_of-letter d, two, scan_byte)

-- no byte that ends a C string
abbrev NoEnd : List ℕ → Type 0
NoEnd = All (λ c. c ≢ 0)

c_string-NoEnd : (t : List ℕ) → NoEnd t → c_string t ≡ t
unfolding c_string
c_string-NoEnd [] plain = refl
c_string-NoEnd (c ∷ t) (no_end, plain) =
    let miss : (c == 0) ≡ false = ground arith in rw (miss, c_string-NoEnd t plain)

kept_percent-NoEnd : (d : Directive) → NoEnd (kept_percent d)
kept_percent-NoEnd date_time = (omega arith, tt)
kept_percent-NoEnd tab = tt
kept_percent-NoEnd thread_id = tt
kept_percent-NoEnd thread_name = tt
kept_percent-NoEnd fiber_id = tt
kept_percent-NoEnd level = tt
kept_percent-NoEnd logger_name = tt
kept_percent-NoEnd file_name = tt
kept_percent-NoEnd line = tt
kept_percent-NoEnd message = tt
kept_percent-NoEnd new_line = tt

take-kept_percent :
    (d : Directive) (rest : List ℕ)
    → take (length (kept_percent d)) (percent ∷ rest) ≡ kept_percent d
take-kept_percent date_time rest = refl
take-kept_percent tab rest = refl
take-kept_percent thread_id rest = refl
take-kept_percent thread_name rest = refl
take-kept_percent fiber_id rest = refl
take-kept_percent level rest = refl
take-kept_percent logger_name rest = refl
take-kept_percent file_name rest = refl
take-kept_percent line rest = refl
take-kept_percent message rest = refl
take-kept_percent new_line rest = refl

text_length-kept_percent :
    (d : Directive) (start n : ℕ)
    → text_length d (start + n + 1) start ≡ n + length (kept_percent d)
text_length-kept_percent date_time start n = omega arith
text_length-kept_percent tab start n = omega arith
text_length-kept_percent thread_id start n = omega arith
text_length-kept_percent thread_name start n = omega arith
text_length-kept_percent fiber_id start n = omega arith
text_length-kept_percent level start n = omega arith
text_length-kept_percent logger_name start n = omega arith
text_length-kept_percent file_name start n = omega arith
text_length-kept_percent line start n = omega arith
text_length-kept_percent message start n = omega arith
text_length-kept_percent new_line start n = omega arith

take_more : (xs ys : List ℕ) (n : ℕ) → take (length xs + n) (xs ++ ys) ≡ xs ++ take n ys
take_more [] ys n = ap (λ k. take k ys) (omega arith)
take_more (x ∷ xs) ys n =
    let next : suc (length xs) + n ≡ suc (length xs + n) = omega arith in
    ap (λ k. take k (x ∷ (xs ++ ys))) next ∙ ap (λ zs. x ∷ zs) (take_more xs ys n)

Plain-NoEnd : (t : List ℕ) → Plain t → NoEnd t
Plain-NoEnd t plain = All-map (λ c h. h.1) t plain

text_before-items :
    (pre t rest : List ℕ) (d : Directive)
    → Plain t
    → text_before (pre ++ (t ++ percent ∷ rest)) (length pre + length t + 1) d (length pre)
      ≡ before_items t d
text_before-items pre [] rest d plain =
    let short : leb (length pre + 2) (length pre + 0 + 1) ≡ false = ground arith in rw short
text_before-items pre (c ∷ t) rest d plain =
    let long : leb (length pre + 2) (length pre + suc (length t) + 1) ≡ true = ground arith in
    rw long (
      ap (λ x. text (c_string x) ∷ [])
        (ap (λ n. take n (drop (length pre) (pre ++ ((c ∷ t) ++ percent ∷ rest))))
            (text_length-kept_percent d (length pre) (suc (length t)))
          ∙ ap (take (suc (length t) + length (kept_percent d)))
              (drop-append pre ((c ∷ t) ++ percent ∷ rest))
          ∙ take_more (c ∷ t) (percent ∷ rest) (length (kept_percent d))
          ∙ ap (λ x. (c ∷ t) ++ x) (take-kept_percent d rest))
      ∙ ap (λ x. text x ∷ [])
          (c_string-NoEnd ((c ∷ t) ++ kept_percent d) (
            All-both _ (c ∷ t) (kept_percent d) (Plain-NoEnd (c ∷ t) plain)
              (kept_percent-NoEnd d))))

close-texts :
    (pre tail : List ℕ) (seq : List Item)
    → Plain tail
    → close (pre ++ tail) (between (length pre) seq) ≡ seq ++ texts tail
unfolding close
close-texts pre [] seq plain =
    let l = length-append pre [] in
    let none_left : ltb (length pre) (length (pre ++ [])) ≡ false = ground arith in
    rw none_left (sym (append-nil seq))
close-texts pre (c ∷ tail) seq plain =
    let l = length-append pre (c ∷ tail) in
    let some_left : ltb (length pre) (length (pre ++ c ∷ tail)) ≡ true = ground arith in
    rw some_left (
      ap (λ x. seq ++ text (c_string x) ∷ [])
        (ap (take (length (pre ++ c ∷ tail))) (drop-append pre (c ∷ tail))
          ∙ take_all (length (pre ++ c ∷ tail)) (c ∷ tail) (omega arith))
      ∙ ap (λ x. seq ++ text x ∷ []) (c_string-NoEnd (c ∷ tail) (Plain-NoEnd (c ∷ tail) plain)))

module _ (pre : List ℕ) (p : Piece) (pieces : List Piece) (tail : List ℕ) where
  -- the pattern up to the end of its first piece
  abbrev longer : List ℕ
  longer = pre ++ (p.before ++ percent ∷ letter p.directive ∷ [])

  longer-print : longer ++ print pieces tail ≡ pre ++ print (p ∷ pieces) tail
  unfolding print
  longer-print =
      append_assoc pre (p.before ++ percent ∷ letter p.directive ∷ []) (print pieces tail)
      ∙ ap (λ x. pre ++ x)
          (append_assoc p.before (percent ∷ letter p.directive ∷ []) (print pieces tail))

  length-longer : length longer ≡ length pre + length p.before + 2
  length-longer =
      let a = length-append pre (p.before ++ percent ∷ letter p.directive ∷ []) in
      let b = length-append p.before (percent ∷ letter p.directive ∷ []) in omega arith

join : (a b c d : List Item) → a ++ b ++ c ++ d ≡ a ++ (b ++ c ++ d)
join a b c d = ap (λ x. x ++ d) (append_assoc a b c) ∙ append_assoc a (b ++ c) d

scan-items :
    (pieces : List Piece) (pre tail : List ℕ) (seq : List Item)
    → PlainPieces pieces
    → Plain tail
    → close (pre ++ print pieces tail) (
        scan (pre ++ print pieces tail) (length pre) (print pieces tail) (between (length pre) seq))
      ≡ seq ++ items pieces tail
unfolding print items scan
scan-items [] pre tail seq plain plain_tail =
    ap (close (pre ++ tail)) (
      ap (λ t. scan (pre ++ tail) (length pre) t (between (length pre) seq)) (sym (append-nil tail))
      ∙ scan-Plain (pre ++ tail) (length pre) tail [] (length pre) seq plain_tail)
    ∙ close-texts pre tail seq plain_tail
scan-items (p ∷ pieces) pre tail seq (plain, rest_plain) plain_tail =
    let format = pre ++ print (p ∷ pieces) tail in
    let d = p.directive in
    let n = length pre in
    let rest = print pieces tail in
    let seq' = seq ++ before_items p.before d ++ pushed d in
    let long = longer pre p pieces tail in
    ap (close format) (
      scan-Plain format n p.before (percent ∷ letter d ∷ rest) n seq plain
      ∙ scan-directive format (n + length p.before) d rest n seq
      ∙ ap
          (λ x.
            scan format (n + length p.before + 2) rest
              (between (n + length p.before + 2) (seq ++ x ++ pushed d)))
          (text_before-items pre p.before (letter d ∷ rest) d plain)
      ∙ ap (λ k. scan format k rest (between k seq')) (sym (length-longer pre p pieces tail)))
    ∙ ap (λ f. close f (scan f (length long) rest (between (length long) seq')))
        (sym (longer-print pre p pieces tail))
    ∙ scan-items pieces long tail seq' rest_plain plain_tail
    ∙ join seq (before_items p.before d) (pushed d) (items pieces tail)

-- A pattern of texts with neither '%' nor a 0 byte, and of directives between them, is read as its
-- texts and its directives in order, but for this: an empty text is left out, and so are the
-- directives %N and %c, and a text before %d keeps the '%'.
pub init-print :
    (pieces : List Piece) (tail : List ℕ)
    → PlainPieces pieces
    → Plain tail
    → init (print pieces tail) ≡ items pieces tail
unfolding init
init-print pieces tail plain plain_tail = scan-items pieces [] tail [] plain plain_tail
