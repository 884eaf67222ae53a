-- ===== src/Sap/Payload.antt =====
-- The payload of BuildDemandUpdateXML (internal/sap/xml.go), as a reader of XML takes it.
use mathlib.Core.List.{append_assoc}
use sap_orders_api.Prelude.{
  ℕ, ◌<◌, arith, ◌≡◌, refl, sym, ap, ◌∙◌, Option, none, some, List, [], ◌∷◌, ◌++◌, map, String,
  ◌==◌, ==_refl, if◌then◌else◌, ◌<+>◌,
}
use sap_orders_api.Domain.Dates.{codes, format_date, parse_codes, parse_date}
use sap_orders_api.Domain.Dates.RoundTrip.{
  IsDate, digit_code, format_date-kept, parse_date-format_date,
}
use sap_orders_api.Domain.Types.{OrderItem, item_status_text}
use sap_orders_api.Sap.{
  element, escape, escape_char, xml_namespace, encode, build_demand_update_xml,
}
use sap_orders_api.Sap.Escaping.{read_text, sanitized, read_text-escape, codes-append}

abbrev and_then : {A B : Type 0} → Option A → (A → Option B) → Option B
and_then none f = none
and_then (some a) f = f a

-- what follows a text that has to be there
skip : List ℕ → List ℕ → Option (List ℕ)
skip [] cs = some cs
skip (p ∷ ps) [] = none
skip (p ∷ ps) (c ∷ cs) = let rest = skip ps cs in if p == c then rest else none

-- The text of an element of this indentation and name, and what follows it. Other elements in it are
-- not allowed.
read_element : String → String → List ℕ → Option (List ℕ × List ℕ)
unfolding skip
read_element indent name cs =
    and_then (skip (codes indent ++ (codes "<" ++ (codes name ++ codes ">"))) cs) λ inner.
      and_then (read_text none inner) λ text.
        and_then (skip (codes "</" ++ (codes name ++ codes ">\n")) text.1)
          λ rest. some (text.0, rest)

-- The texts that a payload carries, by the numbers of their characters.
pub record Carried : Type 0 where
  pub order_number : List ℕ
  pub demand_code : List ℕ
  pub description : List ℕ
  pub delivery_date : List ℕ
  pub status : List ℕ

-- The texts of a payload, or none where it is not of the form that SAP expects.
unfoldable pub read_payload : List ℕ → Option Carried
unfolding read_element
read_payload cs = and_then (skip (codes "<?xml version=\"1.0\" encoding=\"UTF-8\"?>\n") cs) λ r1.
    and_then (skip (codes "<DemandUpdate xmlns=\"") r1) λ r2.
      and_then (skip (codes "urn:sap:demand:update") r2) λ r3.
        and_then (skip (codes "\">\n") r3) λ r4.
          and_then (read_element "  " "OrderNumber" r4) λ number.
            and_then (skip (codes "  <Item>\n") number.1) λ r5.
              and_then (read_element "    " "DemandCode" r5) λ code.
                and_then (read_element "    " "Description" code.1) λ description.
                  and_then (read_element "    " "DeliveryDate" description.1) λ date.
                    and_then (read_element "    " "Status" date.1) λ status.
                      and_then (skip (codes "  </Item>\n") status.1) λ r6.
                        and_then (skip (codes "</DemandUpdate>") r6) λ end. some (record {
                          order_number = number.0;
                          demand_code = code.0;
                          description = description.0;
                          delivery_date = date.0;
                          status = status.0;
                        })

skip-append : (ps rest : List ℕ) → skip ps (ps ++ rest) ≡ some rest
unfolding skip
skip-append [] rest = refl
skip-append (p ∷ ps) rest = rw (==_refl p) (skip-append ps rest)

skips : (s t : String) → skip (codes s) (codes (s <+> t)) ≡ some (codes t)
skips s t = ap (skip (codes s)) (codes-append s t) ∙ skip-append (codes s) (codes t)

-- a text in front of others
onto : (s t : String) (rest : List ℕ) → codes (s <+> t) ++ rest ≡ codes s ++ (codes t ++ rest)
onto s t rest = ap (λ cs. cs ++ rest) (codes-append s t) ∙ append_assoc (codes s) (codes t) rest

module _ (indent name content : String) where
  element-codes :
      (rest : List ℕ)
      → codes (element indent name content) ++ rest
        ≡ (codes indent ++ (codes "<" ++ (codes name ++ codes ">")))
          ++ (codes content ++ ((codes "</" ++ (codes name ++ codes ">\n")) ++ rest))
  element-codes rest =
      onto indent _ rest
      ∙ ap (λ x. codes indent ++ x)
          (onto "<" _ rest
            ∙ ap (λ x. codes "<" ++ x)
                (onto name _ rest
                  ∙ ap (λ x. codes name ++ x)
                      (onto ">" _ rest
                        ∙ ap (λ x. codes ">" ++ x)
                            (onto content _ rest ∙ ap (λ x. codes content ++ x) closing))))
      ∙ sym (opening _)
    where
      closing :
          codes ("</" <+> name <+> ">\n") ++ rest
          ≡ (codes "</" ++ (codes name ++ codes ">\n")) ++ rest
      closing =
          onto "</" (name <+> ">\n") rest
          ∙ ap (λ x. codes "</" ++ x)
              (onto name ">\n" rest ∙ sym (append_assoc (codes name) (codes ">\n") rest))

      opening :
          (T : List ℕ)
          → (codes indent ++ (codes "<" ++ (codes name ++ codes ">"))) ++ T
            ≡ codes indent ++ (codes "<" ++ (codes name ++ (codes ">" ++ T)))
      opening T =
          append_assoc (codes indent) (codes "<" ++ (codes name ++ codes ">")) T
          ∙ ap (λ x. codes indent ++ (codes "<" ++ x)) (append_assoc (codes name) (codes ">") T)

-- what is read of an element that was written
read-element :
    (indent name field t : String)
    → read_element indent name (codes (element indent name (escape field) <+> t))
      ≡ some (map sanitized (codes field), codes t)
unfolding read_element
read-element indent name field t =
    let before = codes indent ++ (codes "<" ++ (codes name ++ codes ">")) in
    let after = codes "</" ++ (codes name ++ codes ">\n") in
    let closed =
      λ (text : List ℕ × List ℕ). and_then (skip after text.1) λ rest. some (text.0, rest) in
    let inside = λ (inner : List ℕ). and_then (read_text none inner) closed in
    ap (λ cs. and_then (skip before cs) inside)
      (codes-append (element indent name (escape field)) t
        ∙ element-codes indent name (escape field) (codes t))
    ∙ ap (λ o. and_then o inside) (skip-append before (codes (escape field) ++ (after ++ codes t)))
    ∙ ap (λ o. and_then o closed)
        (read_text-escape field (b'/' ∷ ((codes name ++ codes ">\n") ++ codes t)))
    ∙ ap (λ o. and_then o λ rest. some (map sanitized (codes field), rest))
        (skip-append after (codes t))

namespace_is : escape xml_namespace ≡ xml_namespace
unfolding escape escape_char
namespace_is = refl

module _ (order_number : String) (item : OrderItem) where
  abbrev written : String → String → String
  written name field = element "    " name (escape field)

  -- what is left to be read after each part
  abbrev t11 : String
  t11 = "</DemandUpdate>"

  abbrev t10 : String
  t10 = "  </Item>\n" <+> t11

  abbrev t9 : String
  t9 = written "Status" (item_status_text item.status) <+> t10

  abbrev t8 : String
  t8 = written "DeliveryDate" (format_date item.delivery_date) <+> t9

  abbrev t7 : String
  t7 = written "Description" item.description <+> t8

  abbrev t6 : String
  t6 = written "DemandCode" item.demand_code <+> t7

  abbrev t5 : String
  t5 = "  <Item>\n" <+> t6

  abbrev t4 : String
  t4 = element "  " "OrderNumber" (escape order_number) <+> t5

  abbrev t3 : String
  t3 = "\">\n" <+> t4

  abbrev t2 : String
  t2 = escape xml_namespace <+> t3

  -- the texts that are read
  read_payload-build_demand_update_xml :
      read_payload (codes (build_demand_update_xml order_number item))
      ≡ some (record {
        order_number = map sanitized (codes order_number);
        demand_code = map sanitized (codes item.demand_code);
        description = map sanitized (codes item.description);
        delivery_date = map sanitized (codes (format_date item.delivery_date));
        status = map sanitized (codes (item_status_text item.status));
      })
  unfolding read_payload build_demand_update_xml encode
  read_payload-build_demand_update_xml =
      rw (skips "<?xml version=\"1.0\" encoding=\"UTF-8\"?>\n" ("<DemandUpdate xmlns=\"" <+> t2)) (
        rw (skips "<DemandUpdate xmlns=\"" t2) (
          rw namespace_is (
            rw (skips "urn:sap:demand:update" t3) (
              rw (skips "\">\n" t4) (
                rw (read-element "  " "OrderNumber" order_number t5) (
                  rw (skips "  <Item>\n" t6) (
                    rw (read-element "    " "DemandCode" item.demand_code t7) (
                      rw (read-element "    " "Description" item.description t8) (
                        rw (read-element "    " "DeliveryDate" (format_date item.delivery_date) t9)
                          (rw (read-element "    " "Status" (item_status_text item.status) t10)
                            (refl)))))))))))

digits_kept : (n : ℕ) → n < 10 → sanitized (digit_code n) ≡ digit_code n
digits_kept n h = ground arith

-- What a payload carries of an order number and an item.
pub record Carries (order_number : String) (item : OrderItem) : Type 0 where
  pub texts : Carried
  pub is_read : read_payload (codes (build_demand_update_xml order_number item)) ≡ some texts
  pub number : texts.order_number ≡ map sanitized (codes order_number)
  pub demand_code : texts.demand_code ≡ map sanitized (codes item.demand_code)
  pub description : texts.description ≡ map sanitized (codes item.description)
  pub delivery_date : parse_codes texts.delivery_date ≡ some item.delivery_date
  pub status : texts.status ≡ map sanitized (codes (item_status_text item.status))

-- SAP is sent what the item says: a reader of XML that wants the form of the payload, element by
-- element, reads the payload of an order number and an item, whatever characters they hold, if the
-- item's delivery date is a day of the calendar in a year of at most four digits. It takes from it the
-- number, the demand code, the description and the status, each as it was, with U+FFFD for the
-- characters that XML cannot hold, and a date that time.Parse reads as the item's.
pub build_demand_update_xml-Carries :
    (order_number : String) (item : OrderItem)
    → IsDate item.delivery_date
    → Carries order_number item
unfolding parse_date
build_demand_update_xml-Carries order_number item is_date = record {
  texts = record {
    order_number = map sanitized (codes order_number);
    demand_code = map sanitized (codes item.demand_code);
    description = map sanitized (codes item.description);
    delivery_date = map sanitized (codes (format_date item.delivery_date));
    status = map sanitized (codes (item_status_text item.status));
  };
  is_read = read_payload-build_demand_update_xml order_number item;
  number = refl;
  demand_code = refl;
  description = refl;
  delivery_date =
      ap parse_codes (format_date-kept sanitized digits_kept refl item.delivery_date is_date)
      ∙ parse_date-format_date item.delivery_date is_date;
  status = refl;
}
