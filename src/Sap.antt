-- ===== src/Sap.antt =====
-- internal/sap: the XML payload of xml.go with the parts of encoding/xml that it uses, the client
-- interface, and the stub client of stub_client.go.
pub mod Escaping
pub mod Payload
use Prim.Native.Char.{Char, code}
use Prim.Native.String
use sap_orders_api.Prelude.{ℕ, Bool, true, ◌&&◌, ◌||◌, leb, ◌==◌, String, if◌then◌else◌, ◌<+>◌}
use sap_orders_api.Domain.Types.{OrderItem, item_status_text}
use sap_orders_api.Domain.Dates.{format_date}

-- isInCharacterRange of encoding/xml
abbrev pub in_character_range : ℕ → Bool
in_character_range c =
    (c == 0x09)
    || (c == 0x0A)
    || (c == 0x0D)
    || (leb 0x20 c && leb c 0xD7FF)
    || (leb 0xE000 c && leb c 0xFFFD)
    || (leb 0x10000 c && leb c 0x10FFFF)

-- one character under EscapeString of encoding/xml
unfoldable pub escape_char : Char → String
escape_char ch =
    let c = code ch in
    if c == b'"'
    then "&#34;"
    else if c == b'\''
    then "&#39;"
    else if c == b'&'
    then "&amp;"
    else if c == b'<'
    then "&lt;"
    else if c == b'>'
    then "&gt;"
    else if c == b'\t'
    then "&#x9;"
    else if c == b'\n'
    then "&#xA;"
    else if c == b'\r'
    then "&#xD;"
    else if in_character_range c
    then (String.◌∷◌ ch "")
    else "�"

unfoldable pub escape : String → String
unfolding escape_char
escape String.[] = ""
escape (String.◌∷◌ c s) = escape_char c <+> escape s

-- `<name>text</name>` on a line of its own, after its indentation
abbrev pub element : String → String → String → String
element indent name content =
    indent <+> "<" <+> name <+> ">" <+> content <+> "</" <+> name <+> ">\n"

abbrev pub xml_namespace : String
xml_namespace = "urn:sap:demand:update"

pub record DemandItem : Type 0 where
  pub demand_code : String
  pub description : String
  pub delivery_date : String
  pub status : String

pub record DemandUpdate : Type 0 where
  pub xmlns : String
  pub order_number : String
  pub item : DemandItem

abbrev pub demand_update : String → OrderItem → DemandUpdate
demand_update order_number item = record {
  xmlns = xml_namespace;
  order_number = order_number;
  item = record {
    demand_code = item.demand_code;
    description = item.description;
    delivery_date = format_date item.delivery_date;
    status = item_status_text item.status;
  };
}

-- What encoding/xml makes of the struct, by its tags and `Indent("", "  ")`.
unfoldable pub encode : DemandUpdate → String
unfolding escape
encode d =
    "<DemandUpdate xmlns=\""
    <+> escape d.xmlns
    <+> "\">\n"
    <+> element "  " "OrderNumber" (escape d.order_number)
    <+> "  <Item>\n"
    <+> element "    " "DemandCode" (escape d.item.demand_code)
    <+> element "    " "Description" (escape d.item.description)
    <+> element "    " "DeliveryDate" (escape d.item.delivery_date)
    <+> element "    " "Status" (escape d.item.status)
    <+> "  </Item>\n"
    <+> "</DemandUpdate>"

-- BuildDemandUpdateXML. Encoding a struct of strings gives no error, so the result is the text.
unfoldable pub build_demand_update_xml : String → OrderItem → String
unfolding encode
build_demand_update_xml order_number item =
    "<?xml version=\"1.0\" encoding=\"UTF-8\"?>\n" <+> encode (demand_update order_number item)

pub record SyncResult : Type 0 where
  pub xml_response : String
  pub success : Bool
  pub message : String

-- What SyncDemandUpdate returns: a result, or an error by its text.
pub data Reply : Type 0 where
  replied : SyncResult → Reply
  failed : String → Reply

-- The interface Client, at one moment: the reply to a function name and a payload.
abbrev pub Client : Type 0
Client = String → String → Reply

unfoldable pub stub_client : Client
stub_client rfc_function xml_payload = replied (record {
  xml_response =
      "<?xml version=\"1.0\" encoding=\"UTF-8\"?>\n"
      <+> "<SapResponse xmlns=\"urn:sap:demand:response\">\n"
      <+> element "  " "RFCFunction" rfc_function
      <+> element "  " "Status" "OK"
      <+> element "  " "Message" "Demand update accepted"
      <+> "</SapResponse>";
  success = true;
  message = "Demand update accepted";
})
