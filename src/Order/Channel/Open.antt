-- ===== src/Order/Channel/Open.antt =====
-- Requests whose channels are open and distinct: taking one out and putting one in.
use hedonify.Prelude.{ℕ, ◌≡◌, ◌≢◌, sym, ap, ◌∙◌, List, [], ◌∷◌, ◌++◌, none, some, All, none-ne-some}
use hedonify.Prelude.Map.{lookup, insert, lookup-insert_fresh}
use hedonify.Order.Request.{CreateOrder}
use hedonify.Order.Channel.{Channels, open_channel}
use hedonify.Order.Channel.Delivery.{AreOpen}

abbrev pub AreOthers : CreateOrder → List CreateOrder → Type 0
AreOthers order = All (λ other. other.result_channel ≢ order.result_channel)

-- Taking a request out, and putting one in.
AreOthers-append :
    (order : CreateOrder) (xs ys : List CreateOrder)
    → AreOthers order xs
    → AreOthers order ys
    → AreOthers order (xs ++ ys)
AreOthers-append order [] ys h k = k
AreOthers-append order (x ∷ xs) ys h k = (h.0, AreOthers-append order xs ys h.1 k)

AreOthers-without :
    (order : CreateOrder) (xs : List CreateOrder) (x : CreateOrder) (ys : List CreateOrder)
    → AreOthers order (xs ++ x ∷ ys)
    → (x.result_channel ≢ order.result_channel) × AreOthers order (xs ++ ys)
AreOthers-without order [] x ys h = (h.0, h.1)
AreOthers-without order (y ∷ xs) x ys h =
    let (other, rest) = AreOthers-without order xs x ys h.1 in (other, (h.0, rest))

AreOthers-with :
    (order : CreateOrder) (xs : List CreateOrder) (x : CreateOrder) (ys : List CreateOrder)
    → x.result_channel ≢ order.result_channel
    → AreOthers order (xs ++ ys)
    → AreOthers order (xs ++ x ∷ ys)
AreOthers-with order [] x ys h k = (h, k)
AreOthers-with order (y ∷ xs) x ys h k = (k.0, AreOthers-with order xs x ys h k.1)

pub AreOpen-without :
    (xs : List CreateOrder) (x : CreateOrder) (ys : List CreateOrder) (cs : Channels)
    → AreOpen (xs ++ x ∷ ys) cs
    → (lookup x.result_channel cs ≡ some open_channel)
      × AreOthers x (xs ++ ys)
      × AreOpen (xs ++ ys) cs
AreOpen-without [] x ys cs h = (h.0, h.1, h.2)
AreOpen-without (y ∷ xs) x ys cs h =
    let (found, others, rest) = AreOpen-without xs x ys cs h.2 in
    let (other, others') = AreOthers-without y xs x ys h.1 in
    (found, ((λ e. other (sym e)), others), (h.0, others', rest))

pub AreOpen-with :
    (xs : List CreateOrder) (x : CreateOrder) (ys : List CreateOrder) (cs : Channels)
    → lookup x.result_channel cs ≡ some open_channel
    → AreOthers x (xs ++ ys)
    → AreOpen (xs ++ ys) cs
    → AreOpen (xs ++ x ∷ ys) cs
AreOpen-with [] x ys cs found others h = (found, others, h)
AreOpen-with (y ∷ xs) x ys cs found others h = (
  h.0,
  AreOthers-with y xs x ys (λ e. others.0 (sym e)) h.1,
  AreOpen-with xs x ys cs found others.1 h.2,
)

AreOthers-append_left :
    (order : CreateOrder) (xs ys : List CreateOrder)
    → AreOthers order (xs ++ ys)
    → AreOthers order xs
AreOthers-append_left order [] ys h = tt
AreOthers-append_left order (x ∷ xs) ys h = (h.0, AreOthers-append_left order xs ys h.1)

AreOthers-append_right :
    (order : CreateOrder) (xs ys : List CreateOrder)
    → AreOthers order (xs ++ ys)
    → AreOthers order ys
AreOthers-append_right order [] ys h = h
AreOthers-append_right order (x ∷ xs) ys h = AreOthers-append_right order xs ys h.1

pub AreOpen-append_left :
    (xs ys : List CreateOrder) (cs : Channels) → AreOpen (xs ++ ys) cs → AreOpen xs cs
AreOpen-append_left [] ys cs h = tt
AreOpen-append_left (x ∷ xs) ys cs h =
    (h.0, AreOthers-append_left x xs ys h.1, AreOpen-append_left xs ys cs h.2)

-- Where the requests' channels are as they were.
AreOpen-kept :
    (params : List CreateOrder) (cs cs' : Channels)
    → All (λ param. lookup param.result_channel cs' ≡ lookup param.result_channel cs) params
    → AreOpen params cs
    → AreOpen params cs'
AreOpen-kept [] cs cs' same h = tt
AreOpen-kept (param ∷ params) cs cs' same h =
    (same.0 ∙ h.0, h.1, AreOpen-kept params cs cs' same.1 h.2)

pub AreOpen-fresh :
    (order : CreateOrder) (params : List CreateOrder) (cs : Channels)
    → lookup order.result_channel cs ≡ none
    → AreOpen params cs
    → AreOthers order params × AreOpen params (insert order.result_channel open_channel cs)
AreOpen-fresh order [] cs fresh h = (tt, tt)
AreOpen-fresh order (param ∷ params) cs fresh h =
    let (others, opened) = AreOpen-fresh order params cs fresh h.2 in
    (
      ((λ e. none-ne-some (ap (λ a. lookup a cs) e ∙ fresh) h.0), others),
      (
        lookup-insert_fresh param.result_channel order.result_channel open_channel open_channel cs
            fresh h.0,
        h.1,
        opened,
      ),
    )

abbrev AreApart : List CreateOrder → CreateOrder → Type 0
AreApart xs y = All (λ (x : CreateOrder). x.result_channel ≢ y.result_channel) xs

-- The requests that wait, after the batch has been answered.
pub AreOpen-rest :
    (batch waiting : List CreateOrder) (cs cs' : Channels)
    → ((b : ℕ) → All (λ param. param.result_channel ≢ b) batch → lookup b cs' ≡ lookup b cs)
    → AreOpen (batch ++ waiting) cs
    → AreOpen waiting cs'
AreOpen-rest batch waiting cs cs' kept h =
    AreOpen-kept waiting cs cs' (same waiting (apart batch waiting h)) (dropped batch h)
  where
    dropped : (xs : List CreateOrder) → AreOpen (xs ++ waiting) cs → AreOpen waiting cs
    dropped [] k = k
    dropped (x ∷ xs) k = dropped xs k.2

    same :
        (ys : List CreateOrder)
        → All (AreApart batch) ys
        → All (λ param. lookup param.result_channel cs' ≡ lookup param.result_channel cs) ys
    same [] k = tt
    same (y ∷ ys) k = (kept y.result_channel k.0, same ys k.1)

    extend :
        (x : CreateOrder) (xs ys : List CreateOrder)
        → AreOthers x ys
        → All (AreApart xs) ys
        → All (AreApart (x ∷ xs)) ys
    extend x xs [] h k = tt
    extend x xs (y ∷ ys) h k = (((λ e. h.0 (sym e)), k.0), extend x xs ys h.1 k.1)

    none_before : (ys : List CreateOrder) → All (AreApart []) ys
    none_before [] = tt
    none_before (y ∷ ys) = (tt, none_before ys)

    apart : (xs ys : List CreateOrder) → AreOpen (xs ++ ys) cs → All (AreApart xs) ys
    apart [] ys k = none_before ys
    apart (x ∷ xs) ys k = extend x xs ys (AreOthers-append_right x xs ys k.1) (apart xs ys k.2)
