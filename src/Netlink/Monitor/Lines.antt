-- ===== src/Netlink/Monitor/Lines.antt =====
-- The line that the monitor prints of a route, against the attributes and against route_show.c.
use linux_learn_demo_code.Base.{
  ℕ, Bool, false, not, Option, none, some, List, [], ◌∷◌, if◌then◌else◌, ◌==◌, ◌≡◌, refl, ◌∙◌, ap,
  arith, Bool-cases, inl, inr,
}
use linux_learn_demo_code.Text.{same_text}
use linux_learn_demo_code.Netlink.{
  Attribute, RtMsg, rt_table_main, rta_dst, rta_gateway, rta_prefsrc, not_available, last_address,
}
use linux_learn_demo_code.Netlink.Show.{route, print_route}
use linux_learn_demo_code.Netlink.Show.Responses.{print_route_lem}
use linux_learn_demo_code.Netlink.Monitor.{Texts, attribute_loop, given, print_route_info}

-- The address of the last attribute of a type, if there is one.
abbrev pub last_given : (List ℕ → List ℕ) → ℕ → List Attribute → Option (List ℕ) → Option (List ℕ)
last_given inet_ntop type [] found = found
last_given inet_ntop type (a ∷ as') found =
    last_given inet_ntop type as' (if a.rta_type == type then some (inet_ntop a.bytes) else found)

-- One round writes the text that the type of its attribute names.
one_text :
    (n : ℕ) (x : List ℕ) (t : Texts)
    → (if n == 1
        then record t { destination = x }
        else if n == 5
        then record t { gateway = x }
        else if n == 7
        then record t { source = x }
        else t)
      ≡ record {
        destination = if n == 1 then x else t.destination;
        gateway = if n == 5 then x else t.gateway;
        source = if n == 7 then x else t.source;
      }
one_text n x t = ground arith

attribute_loop_lem :
    (inet_ntop : List ℕ → List ℕ) (as' : List Attribute) (t : Texts)
    → attribute_loop inet_ntop as' t ≡ record {
      destination = last_address inet_ntop rta_dst as' t.destination;
      gateway = last_address inet_ntop rta_gateway as' t.gateway;
      source = last_address inet_ntop rta_prefsrc as' t.source;
    }
unfolding attribute_loop
attribute_loop_lem inet_ntop [] t = refl
attribute_loop_lem inet_ntop (a ∷ as') t =
    ap (attribute_loop inet_ntop as') (one_text a.rta_type (inet_ntop a.bytes) t)
    ∙ attribute_loop_lem inet_ntop as' _

-- The text that stands for "not there", and any address.
abbrev text_of : Option (List ℕ) → List ℕ
text_of none = not_available
text_of (some text) = text

module _ (inet_ntop : List ℕ → List ℕ)
    (is_address : (bytes : List ℕ) → same_text (inet_ntop bytes) not_available ≡ false) where
  given-last :
      (type : ℕ) (as' : List Attribute) (found : Option (List ℕ))
      → given (text_of found) ≡ found
      → given (last_address inet_ntop type as' (text_of found))
        ≡ last_given inet_ntop type as' found
  given-last type [] found h = h
  given-last type (a ∷ as') found h = elim (Bool-cases (a.rta_type == type)) [
    | inl same ↦ rw same (given-last type as' (some (inet_ntop a.bytes)) (rw (is_address a.bytes)))
    | inr other ↦ rw other (given-last type as' found h)
  ]

  text_of-last :
      (type : ℕ) (as' : List Attribute) (found : Option (List ℕ))
      → text_of (last_given inet_ntop type as' found)
        ≡ last_address inet_ntop type as' (text_of found)
  text_of-last type [] found = refl
  text_of-last type (a ∷ as') found = elim (Bool-cases (a.rta_type == type)) [
    | inl same ↦ rw same (text_of-last type as' (some (inet_ntop a.bytes)))
    | inr other ↦ rw other (text_of-last type as' found)
  ]

  given-none : given not_available ≡ none
  unfolding same_text
  given-none = refl

  -- If `inet_ntop` never writes "N/A", the line for a route names the last destination among its
  -- attributes, or "N/A", and after "via" and "src" the last gateway and the last preferred source
  -- exactly if there is one; the table is named exactly if it is not the main one. On a route of the
  -- main table route_show.c names the same destination, and the same gateway or "N/A".
  pub print_route_info_lem :
      (r : RtMsg) (added : Bool)
      → (print_route_info inet_ntop r added ≡ record {
        added = added;
        destination = last_address inet_ntop rta_dst r.attributes not_available;
        netmask = r.rtm_dst_len;
        protocol = r.rtm_protocol;
        via = last_given inet_ntop rta_gateway r.attributes none;
        src = last_given inet_ntop rta_prefsrc r.attributes none;
        table = if not (r.rtm_table == rt_table_main) then some r.rtm_table else none;
      })
        × (let line = print_route_info inet_ntop (record r { rtm_table = rt_table_main }) added in
            print_route inet_ntop (record r { rtm_table = rt_table_main })
            ≡ route line.destination line.netmask line.protocol (text_of line.via) ∷ [])
  unfolding print_route_info
  print_route_info_lem r added = (line_of r, shown)
    where
      texts :
          (as' : List Attribute)
          → let t = attribute_loop inet_ntop as' (record {
            destination = not_available;
            gateway = not_available;
            source = not_available;
          }) in
            (t.destination ≡ last_address inet_ntop rta_dst as' not_available)
            × (given t.gateway ≡ last_given inet_ntop rta_gateway as' none)
            × (given t.source ≡ last_given inet_ntop rta_prefsrc as' none)
      texts as' =
          let e = attribute_loop_lem inet_ntop as' (record {
            destination = not_available;
            gateway = not_available;
            source = not_available;
          }) in
          (
            ap (λ (t : Texts). t.destination) e,
            ap (λ (t : Texts). given t.gateway) e ∙ given-last rta_gateway as' none given-none,
            ap (λ (t : Texts). given t.source) e ∙ given-last rta_prefsrc as' none given-none,
          )

      line_of :
          (q : RtMsg)
          → print_route_info inet_ntop q added ≡ record {
            added = added;
            destination = last_address inet_ntop rta_dst q.attributes not_available;
            netmask = q.rtm_dst_len;
            protocol = q.rtm_protocol;
            via = last_given inet_ntop rta_gateway q.attributes none;
            src = last_given inet_ntop rta_prefsrc q.attributes none;
            table = if not (q.rtm_table == rt_table_main) then some q.rtm_table else none;
          }
      line_of q = let e = texts q.attributes in cc (e.0, e.1, e.2)

      shown :
          let line = print_route_info inet_ntop (record r { rtm_table = rt_table_main }) added in
          print_route inet_ntop (record r { rtm_table = rt_table_main })
          ≡ route line.destination line.netmask line.protocol (text_of line.via) ∷ []
      shown =
          print_route_lem inet_ntop (record r { rtm_table = rt_table_main })
          ∙ cc (
            (texts r.attributes).0,
            (texts r.attributes).1,
            text_of-last rta_gateway r.attributes none,
          )
