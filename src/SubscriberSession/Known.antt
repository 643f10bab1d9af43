-- ===== src/SubscriberSession/Known.antt =====
-- SubscriberSession: the list of publishers is subscripted in its range, and what the session
-- tells of its connection and of its retries.
pub mod Handlers
pub mod Runs
use tcp_pubsub.SubscriberSession.{
  Operation, resolve, connect, SubscriberSession, Endpoint, write_handshake, retry_wait,
  header_length, header_content, discard, payload, connection_failed_handler,
}
use tcp_pubsub.Base.{
  if◌then◌else◌, length, get_elem?, get_or, All, All-append, ℤ, pos, negsuc, is_negative,
  is_positive, decrement, ℕ, zero, suc, ◌≤◌, ◌<◌, ◌≡◌, refl, ◌∙◌, ◌⊎◌, inl, Bool, true, false, not,
  ◌&&◌, ◌||◌, some, List, [], ◌∷◌, ◌++◌, arith, ◌+◌,
}

-- An operation's index is that of an entry of a list of a length.
abbrev pub InRange : ℕ → Operation → Type 0
InRange n (resolve i) = i < n
InRange n (connect i) = i < n
InRange n (write_handshake b) = Unit
InRange n retry_wait = Unit
InRange n (header_length m) = Unit
InRange n (header_content m r d) = Unit
InRange n (discard m d) = Unit
InRange n (payload m k) = Unit

-- Retries that are left, of a number of attempts; a negative number stands for no limit.
abbrev pub Within : ℤ → ℤ → Type 0
Within (pos most) (pos left) = left ≤ most
Within (pos most) (negsuc left) = ⊥
Within (negsuc most) left = left ≡ negsuc most

-- No publisher, or an entry of the list.
abbrev pub IsEntry : List Endpoint → Endpoint → Type 0
IsEntry l e = (e ≡ ("", 0)) ⊎ ((i : ℕ) × (get_elem? l i ≡ some e))

pub record Known (l : List Endpoint) (most : ℤ) (s : SubscriberSession) : Type 0 where
  pub same_list : s.publisher_list ≡ l
  pub same_most : s.max_reconnection_attempts ≡ most
  pub not_empty : 0 < length l
  pub in_range : All (InRange (length l)) s.operations
  pub connected : IsEntry l s.connected_publisher_endpoint
  pub within : Within most s.retries_left

pub Within-refl : (n : ℤ) → Within n n
Within-refl (pos n) = omega arith
Within-refl (negsuc n) = refl

Within-decrement :
    (most left : ℤ)
    → Within most left
    → Within most (if is_positive left then decrement left else left)
Within-decrement (pos most) (pos zero) w = w
Within-decrement (pos most) (pos (suc n)) w = omega arith
Within-decrement (pos most) (negsuc left) w = elim w [ ]
Within-decrement (negsuc most) left w = rw w refl

pub get_or-IsEntry :
    (l : List Endpoint) (i : ℕ) (e : Endpoint) → i < length l → get_elem? l i ≡ some (get_or l i e)
get_or-IsEntry [] i e within = absurd (omega arith)
get_or-IsEntry (x ∷ l) zero e within = refl
get_or-IsEntry (x ∷ l) (suc i) e within = get_or-IsEntry l i e (omega arith)

module _ {l : List Endpoint} {most : ℤ} where
  pub either-Known :
      (c : Bool) (s t : SubscriberSession)
      → Known l most s
      → Known l most t
      → Known l most (if c then s else t)
  either-Known true s t v w = v
  either-Known false s t v w = w

  pub begins-Known :
      (o : Operation) (s : SubscriberSession)
      → InRange (length l) o
      → Known l most s
      → Known l most (record s { operations = s.operations ++ o ∷ [] })
  begins-Known o s fits v = record {
    same_list = v.same_list;
    same_most = v.same_most;
    not_empty = v.not_empty;
    in_range = All-append (InRange (length l)) s.operations (o ∷ []) v.in_range (fits, tt);
    connected = v.connected;
    within = v.within;
  }

  -- A change of what the properties do not speak of.
  pub same-Known :
      (s t : SubscriberSession)
      → t.publisher_list ≡ s.publisher_list
      → t.max_reconnection_attempts ≡ s.max_reconnection_attempts
      → t.operations ≡ s.operations
      → t.connected_publisher_endpoint ≡ s.connected_publisher_endpoint
      → t.retries_left ≡ s.retries_left
      → Known l most s
      → Known l most t
  same-Known s t e₁ e₂ e₃ e₄ e₅ v = record {
    same_list = e₁ ∙ v.same_list;
    same_most = e₂ ∙ v.same_most;
    not_empty = v.not_empty;
    in_range = rw e₃ v.in_range;
    connected = rw e₄ v.connected;
    within = rw e₅ v.within;
  }

  pub failed-Known :
      (s : SubscriberSession) → Known l most s → Known l most (connection_failed_handler s)
  unfolding connection_failed_handler
  failed-Known s v =
      let t : SubscriberSession = record s {
        connected_publisher_endpoint = ("", 0);
        socket_open = false;
      } in
      let u : SubscriberSession = record t {
        retries_left =
            if is_positive s.retries_left then decrement s.retries_left else s.retries_left;
      } in
      let without : Known l most t = record {
        same_list = v.same_list;
        same_most = v.same_most;
        not_empty = v.not_empty;
        in_range = v.in_range;
        connected = inl refl;
        within = v.within;
      } in
      let fewer : Known l most u = record {
        same_list = v.same_list;
        same_most = v.same_most;
        not_empty = v.not_empty;
        in_range = v.in_range;
        connected = inl refl;
        within = Within-decrement most s.retries_left v.within;
      } in
      either-Known (not s.canceled && (is_negative s.retries_left || is_positive s.retries_left)) _
        _ (begins-Known retry_wait u tt fewer)
        (same-Known t (record t { closed_calls = suc s.closed_calls }) refl refl refl refl refl
          without)

  -- What a handler does unless the session is canceled.
  pub unless_canceled :
      (s t : SubscriberSession)
      → Known l most s
      → Known l most t
      → Known l most (if s.canceled then connection_failed_handler s else t)
  unless_canceled s t v w =
      either-Known s.canceled (connection_failed_handler s) t (failed-Known s v) w

  pub begins_unless_canceled :
      (o : Operation) (s : SubscriberSession)
      → InRange (length l) o
      → Known l most s
      → Known l most (
          if s.canceled
          then connection_failed_handler s
          else record s { operations = s.operations ++ o ∷ [] })
  begins_unless_canceled o s fits v = unless_canceled s _ v (begins-Known o s fits v)
