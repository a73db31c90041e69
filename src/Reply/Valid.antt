-- ===== src/Reply/Valid.antt =====
-- The pieces of a text that is valid Unicode are valid Unicode.
use alice_llm_bridge.Base.{arith, List, [], ◌∷◌, ◌++◌, concat, subst, sym, All}
use alice_llm_bridge.Base.Text.{Text}
use alice_llm_bridge.Base.Utf8.{IsText}
use alice_llm_bridge.Reply.{ReplyShaper, split, shape_chunks, split_into_chunks}
use alice_llm_bridge.Reply.Chunks.{concat-split_into_chunks}
use alice_llm_bridge.Reply.Shaper.{HasRoom, content_limit}

append-IsText : (a b : Text) → IsText (a ++ b) → IsText a × IsText b
append-IsText [] b h = (tt, h)
append-IsText (c ∷ a) b h = ((h.0, (append-IsText a b h.1).0), (append-IsText a b h.1).1)

concat-IsText : (chunks : List Text) → IsText (concat chunks) → All IsText chunks
concat-IsText [] h = tt
concat-IsText (chunk ∷ chunks) h = (
  (append-IsText chunk (concat chunks) h).0,
  concat-IsText chunks (append-IsText chunk (concat chunks) h).1,
)

pub split_into_chunks-IsText :
    (shaper : ReplyShaper) (text : Text)
    → HasRoom shaper
    → IsText text
    → All IsText (split_into_chunks text (content_limit shaper))
split_into_chunks-IsText shaper text room h =
    concat-IsText _
      (subst IsText (sym (concat-split_into_chunks (content_limit shaper) (omega arith) text)) h)

pub shape_chunks-IsText :
    (chunks : List Text) → All IsText chunks → All IsText (shape_chunks chunks).remaining
shape_chunks-IsText [] h = tt
shape_chunks-IsText (first ∷ []) h = tt
shape_chunks-IsText (first ∷ next ∷ rest) h = h.1

pub split-IsText :
    (shaper : ReplyShaper) (text : Text)
    → HasRoom shaper
    → IsText text
    → All IsText (split shaper text).remaining
unfolding split
split-IsText shaper text room h =
    shape_chunks-IsText _ (split_into_chunks-IsText shaper text room h)
