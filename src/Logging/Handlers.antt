-- ===== src/Logging/Handlers.antt =====
-- internal/logging/buffer_handler.go, and `parseLevel` of internal/logging/slog.go. A level is its
-- number in `log/slog`; its text, and those of the values of attributes, are given by the library.
use Prim.Native.String
use oh_my_lan.Prelude.{
  ℕ, suc, ◌≡◌, refl, ◌∙◌, String, Bool, true, false, not, ◌||◌, ◌==◌, List, [], ◌∷◌, ◌++◌, ltb, ℤ,
  pos, negsuc, greater, arith, if◌then◌else◌,
}
use oh_my_lan.Text.{is_empty}
use oh_my_lan.Text.Search.{lower_is}
use oh_my_lan.Text.Trim.{is_empty-append, not_empty}
use oh_my_lan.Logging.RingBuffer.{RingBuffer, add}

-- a `slog.Record`, with the texts of its values
pub record LogRecord : Type 0 where
  pub time : ℕ
  pub level : ℤ
  pub message : String
  pub attrs : List (String × String)

pub record BufferHandler : Type 0 where
  pub level : ℤ
  pub preformatted : String

abbrev pub enabled : BufferHandler → ℤ → Bool
enabled h level = not (greater h.level level)

abbrev attr_text : String × String → String
attr_text (k, v) = String.◌++◌ k (String.◌++◌ "=" v)

abbrev spaced : Bool → String → String → String
spaced true acc text = String.◌++◌ acc (String.◌++◌ " " text)
spaced false acc text = String.◌++◌ acc text

-- the loop of `Handle`
unfoldable pub write_attrs : String → List (String × String) → String
write_attrs acc [] = acc
write_attrs acc (a ∷ rest) = write_attrs (spaced (not (acc == "")) acc (attr_text a)) rest

unfoldable pub handle : (ℤ → String) → BufferHandler → LogRecord → RingBuffer → RingBuffer
unfolding write_attrs
handle level_text h r b =
    add
      (record {
        time = r.time;
        level = level_text r.level;
        message = r.message;
        attrs = write_attrs h.preformatted r.attrs;
      })
      b

-- the loop of `WithAttrs`, from an index on
unfoldable pub write_more : ℕ → String → List (String × String) → String
write_more i acc [] = acc
write_more i acc (a ∷ rest) =
    write_more (suc i) (spaced (not (acc == "") || ltb 0 i) acc (attr_text a)) rest

unfoldable pub with_attrs : List (String × String) → BufferHandler → BufferHandler
unfolding write_more
with_attrs rest h = record h { preformatted = write_more 0 h.preformatted rest }

-- `parseLevel`: debug is -4, info 0, warn 4, error 8.
unfoldable pub parse_level : String → ℤ
unfolding lower_is
parse_level s =
    if lower_is s "debug"
    then negsuc 3
    else if lower_is s "warn" || lower_is s "warning"
    then pos 4
    else if lower_is s "error"
    then pos 8
    else pos 0

spaced-full :
    (b : Bool) (acc : String) (a : String × String) → spaced b acc (attr_text a) == "" ≡ false
spaced-full b acc (k, v) = not_empty (spaced b acc (attr_text (k, v))) (by_space b)
  where
    text : is_empty (attr_text (k, v)) ≡ false
    text = is_empty-append k (String.◌++◌ "=" v) ∙ rw (is_empty-append "=" v) (ground arith)

    by_space : (b : Bool) → is_empty (spaced b acc (attr_text (k, v))) ≡ false
    by_space false = is_empty-append acc (attr_text (k, v)) ∙ rw text (ground arith)
    by_space true =
        is_empty-append acc (String.◌++◌ " " (attr_text (k, v)))
        ∙ rw (is_empty-append " " (attr_text (k, v))) (ground arith)

write_more_lem :
    (i : ℕ) (acc : String) (rest : List (String × String))
    → (ltb 0 i ≡ true → acc == "" ≡ false)
    → write_more i acc rest ≡ write_attrs acc rest
unfolding write_more write_attrs
write_more_lem i acc [] h = refl
write_more_lem i acc (a ∷ rest) h =
    same_space (acc == "") (ltb 0 i) h
    ∙ write_more_lem (suc i) (spaced (not (acc == "")) acc (attr_text a)) rest
        (λ _. spaced-full (not (acc == "")) acc a)
  where
    same_space :
        (empty later : Bool)
        → (later ≡ true → empty ≡ false)
        → write_more (suc i) (spaced (not empty || later) acc (attr_text a)) rest
          ≡ write_more (suc i) (spaced (not empty) acc (attr_text a)) rest
    same_space false later k = refl
    same_space true false k = refl
    same_space true true k = absurd (cc (k refl))

write_attrs-append :
    (acc : String) (rest bs : List (String × String))
    → write_attrs acc (rest ++ bs) ≡ write_attrs (write_attrs acc rest) bs
unfolding write_attrs
write_attrs-append acc [] bs = refl
write_attrs-append acc (a ∷ rest) bs = write_attrs-append (spaced _ acc (attr_text a)) rest bs

-- A handler with attributes writes what the handler without them writes of a record with these in
-- front of its own.
pub handle-with_attrs :
    (level_text : ℤ → String) (h : BufferHandler) (rest : List (String × String)) (r : LogRecord)
    (b : RingBuffer)
    → handle level_text (with_attrs rest h) r b
      ≡ handle level_text h (record r { attrs = rest ++ r.attrs }) b
unfolding handle with_attrs
handle-with_attrs level_text h rest r b =
    rw
      (
        write_more_lem 0 h.preformatted rest (λ e. absurd (cc e)),
        write_attrs-append h.preformatted rest r.attrs,
      )
      refl
